-- ===== src/Hook/Execute.antt =====
-- What the loop of `hook_execute` runs: the callbacks of a list in its order, up to one that fails.
use fast_cgi_rest_api.Common.{
  ℕ, ◌<◌, ◌≡◌, ◌≢◌, refl, true, false, some, [], ◌∷◌, ◌++◌, arith, Rc, ok, failed, length,
  get_elem?, get_elem?-set_self, length-set, fun_ext, set, All, lt→ltb,
}
use fast_cgi_rest_api.Common.Sys.{Floats}
use fast_cgi_rest_api.Hook.{Hook, Hooks, Table, hook_reg, run_hooks, hook_execute}
use fast_cgi_rest_api.Hook.Register.{
  TableIsOrdered, Registered, refused, entered, hook_reg-Registered,
}

-- The second part runs only after the first returns 0.
abbrev pub and_then : {W : Type 0} → Rc × W → (W → Rc × W) → Rc × W
and_then (ok, w) f = f w
and_then (failed, w) f = (failed, w)

module _ ⦃fl : Floats⦄ {W : Type 0} (call : ℕ → W → Rc × W) where
  pub run_hooks-append :
      (front back : Hooks) (w : W)
      → run_hooks call (front ++ back) w ≡ and_then (run_hooks call front w) (run_hooks call back)
  unfolding run_hooks
  run_hooks-append [] back w = refl
  run_hooks-append (h ∷ front) back w =
      ground (arith, run_hooks-append front back (call h.callback w).1)

  run_hooks-cons :
      (new : Hook fl.F) (back : Hooks) (v : W)
      → new.callback ≢ 0
      → run_hooks call (new ∷ back) v ≡ and_then (call new.callback v) (run_hooks call back)
  unfolding run_hooks
  run_hooks-cons new back v c = ground arith

  hook_execute-set :
      (t : Table) (type : ℕ) (l : Hooks) (w : W)
      → type < length t
      → hook_execute call (some (set t type l)) type (length (set t type l)) w ≡ run_hooks call l w
  unfolding hook_execute
  hook_execute-set t type l w small =
      rw (length-set, lt→ltb type (length t) small, get_elem?-set_self t type l small)

  run_hooks-middle :
      (new : Hook fl.F) (front back : Hooks) (w : W)
      → new.callback ≢ 0
      → run_hooks call (front ++ new ∷ back) w
        ≡ and_then
            (run_hooks call front w)
            (λ v. and_then (call new.callback v) (run_hooks call back))
  run_hooks-middle new front back w c =
      rw (run_hooks-append front (new ∷ back) w, fun_ext (λ v. run_hooks-cons new back v c))

  -- The run of the lists in which a new hook stands where `Splits` says.
  abbrev pub Runs : Table → ℕ → ℕ → fl.F → W → Rc × Table → Type 0
  Runs t type callback priority w r =
      (front back : Hooks) × (get_elem? t type ≡ some (front ++ back))
      × All (λ h. fl.lt priority h.priority ≡ false) front
      × All (λ h. fl.lt priority h.priority ≡ true) back
      × (hook_execute call (some r.1) type (length r.1) w
          ≡ and_then (run_hooks call front w)
              (λ v. and_then (call callback v) (run_hooks call back)))

  Registered-Runs :
      (t : Table) (type callback : ℕ) (priority : fl.F) (w : W) {r : Rc × Table}
      → type < length t
      → callback ≢ 0
      → Registered t type callback priority true r
      → Runs t type callback priority w r
  Registered-Runs t type callback priority w small c (refused r e why) = ground arith
  Registered-Runs t type callback priority w small c (entered r l l' _ _ _ at e s) = (
    s.front,
    s.back,
    rw (at, s.before),
    s.not_later,
    s.later,
    rw (e, hook_execute-set t type l' w small, s.after) (run_hooks-middle _ s.front s.back w c),
  )

  -- The hooks of one type of an ordered table after a registration of a callback that is not NULL,
  -- with memory: those of no higher priority run first, then the new one, then the others, and the
  -- first failure ends the run.
  pub hook_execute-hook_reg :
      (t : Table) (type callback : ℕ) (priority : fl.F) (w : W)
      → TableIsOrdered t
      → type < length t
      → callback ≢ 0
      → Runs t type callback priority w (hook_reg true t type callback priority (length t))
  hook_execute-hook_reg t type callback priority w o small c =
      Registered-Runs t type callback priority w small c
        (hook_reg-Registered true t type callback priority o)
