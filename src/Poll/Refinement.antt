-- ===== src/Poll/Refinement.antt =====
-- `fra_glob_poll` as a loop over the callbacks alone, and what holds when it returns.
use fast_cgi_rest_api.Common.{
  ℕ, ◌≡◌, refl, ◌∙◌, Bool, true, false, ◌||◌, Bool-cases, none, some, Option-cases, List, [], ◌∷◌,
  inl, inr, arith, ok, failed, Rc-cases, Run, done, length, if◌then◌else◌, All,
}
use fast_cgi_rest_api.Common.Sys.{Floats}
use fast_cgi_rest_api.Poll.{Entry, State, unlock}
use fast_cgi_rest_api.Poll.Loop.{
  Action, add, stop, Round, Outcome, act, glob_poll_stop, run_callback, dispatch, end_turn,
  poll_loop, glob_poll,
}
use fast_cgi_rest_api.Poll.Rounds.{ready, run_all, dispatch-run_all}

-- How a loop ends: it still waits, a callback stopped it, or a call failed.
pub data Ended : Type 0 where
  running stopped broken : Ended

-- Whether a callback calls `fra_glob_poll_stop`.
unfoldable pub stops : List Action → Bool
stops [] = false
stops (add m e ∷ actions) = stops actions
stops (stop ∷ actions) = true

abbrev pub IsStop : Action → Type 0
IsStop (add m e) = ⊥
IsStop stop = Unit {0}

-- `poll` writes what happened for each descriptor, or fails.
abbrev pub IsFull : List Entry → Round → Type 0
IsFull entries r = (revents : List ℕ) → r.revents ≡ some revents → length revents ≡ length entries

or_false : (b : Bool) → (b || false) ≡ b
or_false b = ground arith

or_true : (b : Bool) → (b || true) ≡ true
or_true b = ground arith

module _ {W : Type 0} (call : Entry → ℕ → W → W × List Action) where
  -- Callbacks in turn, and whether one of them stops the loop.
  unfoldable pub serve : List (Entry × ℕ) → Bool → W → Bool × W
  serve [] stopping w = (stopping, w)
  serve ((e, r) ∷ rest) stopping w =
      let (w', actions) = call e r w in serve rest (stopping || stops actions) w'

  -- The end of a turn: `next` is how the loop goes on.
  unfoldable pub after_turn : Bool → Round → W → Ended × W → Ended × W
  after_turn stopping r w next =
      let relocked : Ended × W = elim r.locked [ ok ↦ next | failed ↦ (broken, w) ] in
      if stopping then (stopped, w) else elim r.unlocked [ ok ↦ relocked | failed ↦ (broken, w) ]

  -- The loop without the arrays and the mutex.
  unfoldable pub abstract_poll : List Entry → List Round → W → Ended × W
  unfolding serve after_turn
  abstract_poll entries [] w = (running, w)
  abstract_poll entries (r ∷ rounds) w = elim r.revents [
    | none ↦ (broken, w)
    | some revents ↦
        let (stopping, w') = serve (ready entries revents) false w in
        let next = abstract_poll entries rounds w' in after_turn stopping r w' next
  ]

  -- The detailed loop ends as the plain one. While it waits, and when it returns 0, it holds the mutex.
  abbrev pub Implements : List Entry → Ended × W → Run (Outcome W) → Type 0
  Implements entries (running, v) run =
      (t : State) × (run ≡ done (Outcome.waiting t v)) × (t.entries ≡ entries) × (t.locked ≡ true)
  Implements entries (stopped, v) run =
      (t : State) × (run ≡ done (Outcome.returned ok t v))
      × (t.entries ≡ entries)
      × (t.locked ≡ true)
  Implements entries (broken, v) run =
      (t : State) × (run ≡ done (Outcome.returned failed t v)) × (t.entries ≡ entries)

  -- Callbacks that register nothing.
  abbrev pub IsQuiet : Type 0
  IsQuiet = (e : Entry) (r : ℕ) (w : W) → All IsStop (call e r w).1

  module _ ⦃fl : Floats⦄ where
    act-stops :
        (actions : List Action) (s : State)
        → All IsStop actions
        → act actions s ≡ done (record s { should_stop = s.should_stop || stops actions })
    unfolding act stops glob_poll_stop
    act-stops [] s h = rw (or_false s.should_stop)
    act-stops (add m e ∷ actions) s h = absurd h.0
    act-stops (stop ∷ actions) s h =
        act-stops actions (record s { should_stop = true }) h.1 ∙ rw (or_true s.should_stop)

    run_all-serve :
        (l : List (Entry × ℕ)) (s : State) (w : W)
        → IsQuiet
        → run_all call l s w
          ≡ done
              (record s { should_stop = (serve l s.should_stop w).0 }, (serve l s.should_stop w).1)
    unfolding run_all run_callback serve
    run_all-serve [] s w q = refl
    run_all-serve ((e, r) ∷ rest) s w q =
        rw (act-stops (call e r w).1 s (q e r w)) (run_all-serve rest _ (call e r w).0 q)

    end_turn-Implements :
        (entries : List Entry) (r : Round) (t : State) (w : W) (next : State → W → Run (Outcome W))
        (abstract_next : Ended × W)
        → t.entries ≡ entries
        → t.locked ≡ true
        → (t.should_stop ≡ false → Implements entries abstract_next (next t w))
        → Implements entries (after_turn t.should_stop r w abstract_next) (end_turn call next r t w)
    unfolding after_turn end_turn
    end_turn-Implements entries r t w next abstract_next h locked goes_on =
        elim (Bool-cases t.should_stop) [
          | inl halt ↦ simp (after_turn, end_turn, halt) (t, refl, h, locked)
          | inr more ↦ elim (Rc-cases r.unlocked) [
            | inr stuck ↦ simp (after_turn, end_turn, more, stuck) (t, refl, h)
            | inl free ↦ elim (Rc-cases r.locked) [
              | inr stuck ↦
                  simp (after_turn, end_turn, more, free, stuck)
                    (record t { locked = false; should_stop = false }, refl, h)
              | inl held ↦ simp (after_turn, end_turn, more, free, held) (goes_on more)
            ]
          ]
        ]

    poll_loop-Implements :
        (rounds : List Round) (entries : List Entry) (s : State) (w : W)
        → IsQuiet
        → All (IsFull entries) rounds
        → s.entries ≡ entries
        → s.locked ≡ true
        → s.should_stop ≡ false
        → Implements entries (abstract_poll entries rounds w) (poll_loop call rounds s w)
    unfolding poll_loop abstract_poll
    poll_loop-Implements [] entries s w q full h locked quiet = (s, refl, h, locked)
    poll_loop-Implements (r ∷ rounds) entries s w q full h locked quiet =
        elim (Option-cases r.revents) [
          | inl none_there ↦ rw (none_there, abstract_poll, poll_loop) (unlock s, refl, h)
          | inr (revents, e) ↦
              let l = ready entries revents in
              let (stopping, v) = serve l false w in
              let t : State = record s { should_stop = stopping } in
              let turn : dispatch call revents 0 s w ≡ done (t, v) =
                dispatch-run_all call [] entries revents 0 s w h refl locked (full.0 revents e)
                ∙ run_all-serve l s w q
                ∙ rw quiet in
              rw (e, abstract_poll, poll_loop, turn)
                (end_turn-Implements entries r t v (poll_loop call rounds)
                  (abstract_poll entries rounds v) h locked
                  (λ go. poll_loop-Implements rounds entries t v q full.1 h locked go))
        ]

    -- `fra_glob_poll` from a state that `fra_p_poll_init` and registrations made, for callbacks that
    -- register nothing, and as long as `poll` reports on each descriptor. In each round it calls the
    -- callbacks of the descriptors with an event that they wait for, in the order of their
    -- registration, and no other; it returns 0 after the first round in which one of them calls
    -- `fra_glob_poll_stop`, and -1 as soon as `poll` or the mutex fails; otherwise it goes on.
    pub glob_poll-Implements :
        (rounds : List Round) (s : State) (w : W)
        → IsQuiet
        → All (IsFull s.entries) rounds
        → s.locked ≡ false
        → s.initialized ≡ true
        → Implements s.entries (abstract_poll s.entries rounds w) (glob_poll call ok rounds s w)
    unfolding glob_poll
    glob_poll-Implements rounds s w q full free made =
        simp (glob_poll, free, made)
          (poll_loop-Implements rounds s.entries
            (record s { initialized = true; locked = true; should_stop = false }) w q full refl refl
            refl)
