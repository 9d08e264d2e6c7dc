-- ===== src/Poll/Held.antt =====
-- The mutex after `fra_glob_poll` has returned 0.
use Prim.Native.Nat.{bit_and}
use fast_cgi_rest_api.Common.{
  ℕ, suc, ◌≡◌, refl, subst, true, false, Bool-cases, Option-cases, List, [], ◌∷◌, ◌⊎◌, inl, inr, ok,
  failed, Rc-cases, Run, done, fault, Returns, get_elem?, ◌==◌,
}
use fast_cgi_rest_api.Common.Sys.{Floats}
use fast_cgi_rest_api.Poll.{Entry, State, Allocs, fd_add}
use fast_cgi_rest_api.Poll.Loop.{Action, Round, Outcome, dispatch, end_turn, poll_loop, glob_poll}
use fast_cgi_rest_api.Poll.Rounds.{run_callback-Keeps}

-- The mutex is held while the loop waits, and after it was stopped.
abbrev pub IsHeld : {W : Type 0} → Outcome W → Type 0
IsHeld (Outcome.waiting t v) = t.locked ≡ true
IsHeld (Outcome.returned ok t v) = t.locked ≡ true
IsHeld (Outcome.returned failed t v) = Unit {0}

module _ ⦃fl : Floats⦄ {W : Type 0} (call : Entry → ℕ → W → W × List Action) where
  dispatch-locked :
      (revents : List ℕ) (i : ℕ) (s : State) (w : W)
      → s.locked ≡ true
      → (dispatch call revents i s w ≡ fault)
        ⊎ Returns (dispatch call revents i s w) λ p. p.0.locked ≡ true
  unfolding dispatch
  dispatch-locked [] i s w h = inr ((s, w), refl, h)
  dispatch-locked (r ∷ revents) i s w h = elim (Option-cases (get_elem? s.entries i)) [
    | inl over ↦ inr ((s, w), rw (over, dispatch), h)
    | inr (e, at) ↦ elim (Bool-cases (bit_and r e.events == 0)) [
      | inl quiet ↦ rw (dispatch, at, quiet) (dispatch-locked revents (suc i) s w h)
      | inr loud ↦ elim (run_callback-Keeps call e r s w h) [
        | inl f ↦ inl (rw (dispatch, at, loud, f))
        | inr ((t, v), run, k) ↦
            rw (dispatch, at, loud, run) (dispatch-locked revents (suc i) t v k.locked)
      ]
    ]
  ]

  end_turn-IsHeld :
      (r : Round) (s : State) (w : W) (next : State → W → Run (Outcome W))
      → s.locked ≡ true
      → (next s w ≡ fault) ⊎ Returns (next s w) IsHeld
      → (end_turn call next r s w ≡ fault) ⊎ Returns (end_turn call next r s w) IsHeld
  unfolding end_turn
  end_turn-IsHeld r s w next h later = elim (Bool-cases s.should_stop) [
    | inl halt ↦ simp (end_turn, halt) (inr (_, refl, h))
    | inr more ↦ elim (Rc-cases r.unlocked) [
      | inr stuck ↦ simp (end_turn, more, stuck) (inr (_, refl, tt))
      | inl free ↦ elim (Rc-cases r.locked) [
        | inr stuck ↦ simp (end_turn, more, free, stuck) (inr (_, refl, tt))
        | inl held ↦ simp (end_turn, more, free, held) later
      ]
    ]
  ]

  poll_loop-IsHeld :
      (rounds : List Round) (s : State) (w : W)
      → s.locked ≡ true
      → (poll_loop call rounds s w ≡ fault) ⊎ Returns (poll_loop call rounds s w) IsHeld
  unfolding poll_loop
  poll_loop-IsHeld [] s w h = inr (_, refl, h)
  poll_loop-IsHeld (r ∷ rounds) s w h = elim (Option-cases r.revents) [
    | inl none_there ↦ rw (none_there, poll_loop) (inr (_, refl, tt))
    | inr (revents, e) ↦ elim (dispatch-locked revents 0 s w h) [
      | inl f ↦ inl (rw (e, poll_loop, f))
      | inr ((t, v), run, k) ↦
          rw (e, poll_loop, run)
            (end_turn-IsHeld r t v (poll_loop call rounds) k (poll_loop-IsHeld rounds t v k))
    ]
  ]

  glob_poll-IsHeld :
      (rounds : List Round) (s : State) (w : W)
      → (glob_poll call ok rounds s w ≡ fault) ⊎ Returns (glob_poll call ok rounds s w) IsHeld
  unfolding glob_poll
  glob_poll-IsHeld rounds s w = elim (Bool-cases s.locked) [
    | inl held ↦ inl (simp (glob_poll, held))
    | inr free ↦ elim (Bool-cases s.initialized) [
      | inr not_made ↦ simp (glob_poll, free, not_made) (inr (_, refl, tt))
      | inl made ↦
          simp (glob_poll, free, made)
            (poll_loop-IsHeld rounds
              (record s { initialized = true; locked = true; should_stop = false }) w refl)
    ]
  ]

  outcome-locked :
      (run : Run (Outcome W)) (t : State) (v : W)
      → (run ≡ fault) ⊎ Returns run IsHeld
      → run ≡ done (Outcome.returned ok t v)
      → t.locked ≡ true
  outcome-locked run t v (inl f) e = cc
  outcome-locked run t v (inr (o, f, h)) e =
      let same : o ≡ Outcome.returned ok t v = cc in subst IsHeld same h

  -- When `fra_glob_poll` returns 0 the mutex is still held: the next call of it, and every registration
  -- of a descriptor, locks it a second time.
  pub glob_poll-returned :
      (rounds later : List Round) (s t : State) (w v : W) (m : Allocs) (e : Entry)
      → glob_poll call ok rounds s w ≡ done (Outcome.returned ok t v)
      → m.lock ≡ ok
      → (fd_add m t e ≡ fault) × (glob_poll call ok later t v ≡ fault)
  unfolding glob_poll fd_add
  glob_poll-returned rounds later s t w v m e run lock =
      let held : t.locked ≡ true =
        outcome-locked (glob_poll call ok rounds s w) t v (glob_poll-IsHeld rounds s w) run in
      (rw (fd_add, lock, held), rw held)
