-- ===== src/Poll/Rounds.antt =====
-- The loop of `fra_glob_poll` against a plain description of it, and the mutex at its end.
use Prim.Native.Nat.{bit_and}
use fast_cgi_rest_api.Common.{
  ℕ, suc, ◌≡◌, refl, sym, ◌∙◌, true, Bool-cases, some, List, [], ◌∷◌, ◌++◌, ◌⊎◌, inl, inr, arith,
  append_assoc, failed, Run, done, fault, ◌>>=◌, Returns, length, length-append, get_elem?, ◌==◌,
  if◌then◌else◌,
}
use fast_cgi_rest_api.Common.Sys.{Floats}
use fast_cgi_rest_api.Poll.{Entry, State, Allocs, fd_add}
use fast_cgi_rest_api.Poll.Loop.{Action, add, stop, act, glob_poll_stop, run_callback, dispatch}

-- The descriptors with an event that they wait for, in their order.
unfoldable pub ready : List Entry → List ℕ → List (Entry × ℕ)
ready [] revents = []
ready (e ∷ entries) [] = []
ready (e ∷ entries) (r ∷ revents) =
    let rest = ready entries revents in if bit_and r e.events == 0 then rest else (e, r) ∷ rest

module _ ⦃fl : Floats⦄ where
  -- A callback runs under the mutex: it leaves the entries and the mutex as they are, or the run is
  -- undefined.
  pub record Keeps (s t : State) : Type 0 where
    pub entries : t.entries ≡ s.entries
    pub locked : t.locked ≡ true

  pub fd_add-locked :
      (m : Allocs) (s : State) (e : Entry)
      → s.locked ≡ true
      → (fd_add m s e ≡ fault) ⊎ (fd_add m s e ≡ done (failed, s))
  unfolding fd_add
  fd_add-locked m s e h = ground (arith, h)

  pub act-Keeps :
      (actions : List Action) (s : State)
      → s.locked ≡ true
      → (act actions s ≡ fault) ⊎ Returns (act actions s) (Keeps s)
  unfolding act glob_poll_stop
  act-Keeps [] s h = inr (s, refl, record { entries = refl; locked = h })
  act-Keeps (stop ∷ actions) s h = elim (act-Keeps actions (record s { should_stop = true }) h) [
    | inl f ↦ inl f
    | inr (t, run, k) ↦ inr (t, run, record { entries = k.entries; locked = k.locked })
  ]
  act-Keeps (add m e ∷ actions) s h = elim (fd_add-locked m s e h) [
    | inl f ↦ inl (rw f)
    | inr f ↦ elim (act-Keeps actions s h) [
      | inl g ↦ inl (rw f g)
      | inr (t, run, k) ↦ inr (t, rw f run, k)
    ]
  ]

  module _ {W : Type 0} (call : Entry → ℕ → W → W × List Action) where
    -- The callbacks of some descriptors, in turn.
    unfoldable pub run_all : List (Entry × ℕ) → State → W → Run (State × W)
    run_all [] s w = done (s, w)
    run_all ((e, r) ∷ rest) s w = run_callback call e r s w >>= λ p. run_all rest p.0 p.1

    pub run_callback-Keeps :
        (e : Entry) (r : ℕ) (s : State) (w : W)
        → s.locked ≡ true
        → (run_callback call e r s w ≡ fault) ⊎ Returns (run_callback call e r s w) λ p. Keeps s p.0
    unfolding run_callback
    run_callback-Keeps e r s w h = elim (act-Keeps (call e r w).1 s h) [
      | inl f ↦ inl (rw f)
      | inr (t, run, k) ↦ inr ((t, (call e r w).0), rw run, k)
    ]

    get_elem?-middle :
        (front rest : List Entry) (e : Entry)
        → get_elem? (front ++ e ∷ rest) (length front) ≡ some e
    get_elem?-middle [] rest e = refl
    get_elem?-middle (f ∷ front) rest e = get_elem?-middle front rest e

    pub dispatch-run_all :
        (front rest : List Entry) (revents : List ℕ) (i : ℕ) (s : State) (w : W)
        → s.entries ≡ front ++ rest
        → i ≡ length front
        → s.locked ≡ true
        → length revents ≡ length rest
        → dispatch call revents i s w ≡ run_all (ready rest revents) s w
    unfolding dispatch run_all ready
    dispatch-run_all front [] [] i s w h at locked n = refl
    dispatch-run_all front [] (r ∷ revents) i s w h at locked n = absurd (omega (arith, n))
    dispatch-run_all front (e ∷ rest) [] i s w h at locked n = absurd (omega (arith, n))
    dispatch-run_all front (e ∷ rest) (r ∷ revents) i s w h at locked n =
        let here : get_elem? s.entries i ≡ some e = rw (h, at) (get_elem?-middle front rest e) in
        let next = λ (t : State) (v : W) (k : t.entries ≡ s.entries) (l : t.locked ≡ true).
          dispatch-run_all (front ++ e ∷ []) rest revents (suc i) t v
            (k ∙ h ∙ sym (append_assoc front (e ∷ []) rest))
            (omega (arith, length-append front (e ∷ []))) l (omega arith) in
        elim (Bool-cases (bit_and r e.events == 0)) [
          | inl quiet ↦ rw (dispatch, here, quiet) (next s w refl locked)
          | inr loud ↦ elim (run_callback-Keeps e r s w locked) [
            | inl f ↦ rw (dispatch, here, loud, f)
            | inr ((t, v), run, k) ↦ rw (dispatch, here, loud, run) (next t v k.entries k.locked)
          ]
        ]
