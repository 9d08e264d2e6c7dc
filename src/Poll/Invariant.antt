-- ===== src/Poll/Invariant.antt =====
-- Invariants of what the callbacks of `fra_glob_poll` of src/poll.c read and write.
use fast_cgi_rest_api.Common.{
  ℕ, ◌≡◌, Bool, true, false, Option-cases, List, [], ◌∷◌, inl, inr, ok, Rc-cases, Run, Returns, All,
}
use fast_cgi_rest_api.Common.Sys.{Floats}
use fast_cgi_rest_api.Poll
use fast_cgi_rest_api.Poll.{Entry}
use fast_cgi_rest_api.Poll.Loop.{Action, Round, Outcome, glob_poll}
use fast_cgi_rest_api.Poll.Rounds.{ready}
use fast_cgi_rest_api.Poll.Refinement.{
  Ended, running, stopped, broken, IsFull, IsQuiet, Implements, serve, after_turn, abstract_poll,
  glob_poll-Implements,
}

-- What callbacks read and write, at the end of the loop or while it waits.
abbrev pub world_of : {V : Type 0} → Outcome V → V
world_of (Outcome.waiting t v) = v
world_of (Outcome.returned rc t v) = v

Implements-Returns :
    {V : Type 0} (call : Entry → ℕ → V → V × List Action) (P : V → Type 0) (entries : List Entry)
    (how : Ended × V) (run : Run (Outcome V))
    → Implements call entries how run
    → P how.1
    → Returns run λ o. P (world_of o)
Implements-Returns call P entries (running, v) run (t, e, _, _) h = (_, e, h)
Implements-Returns call P entries (stopped, v) run (t, e, _, _) h = (_, e, h)
Implements-Returns call P entries (broken, v) run (t, e, _) h = (_, e, h)

-- What callbacks that keep `P` do in the loop keeps it.
module _ {V : Type 0} (call : Entry → ℕ → V → V × List Action) (P : V → Type 0)
    (kept : (e : Entry) (r : ℕ) (v : V) → P v → P (call e r v).0) where
  serve-keeps :
      (l : List (Entry × ℕ)) (stopping : Bool) (v : V) → P v → P (serve call l stopping v).1
  unfolding serve
  serve-keeps [] stopping v h = h
  serve-keeps ((e, r) ∷ rest) stopping v h = serve-keeps rest _ _ (kept e r v h)

  after_turn-keeps :
      (stopping : Bool) (r : Round) (v : V) (next : Ended × V)
      → P v
      → P next.1
      → P (after_turn call stopping r v next).1
  unfolding after_turn
  after_turn-keeps true r v next h k = h
  after_turn-keeps false r v next h k = elim (Rc-cases r.unlocked) [
    | inr stuck ↦ rw (after_turn, stuck) h
    | inl free ↦ elim (Rc-cases r.locked) [
      | inr stuck ↦ rw (after_turn, free, stuck) h
      | inl held ↦ rw (after_turn, free, held) k
    ]
  ]

  abstract_poll-keeps :
      (entries : List Entry) (rounds : List Round) (v : V)
      → P v
      → P (abstract_poll call entries rounds v).1
  unfolding abstract_poll
  abstract_poll-keeps entries [] v h = h
  abstract_poll-keeps entries (r ∷ rounds) v h = elim (Option-cases r.revents) [
    | inl missing ↦ rw (abstract_poll, missing) h
    | inr (revents, e) ↦
        let (stopping, w) = serve call (ready entries revents) false v in
        let served = serve-keeps (ready entries revents) false v h in
        rw (abstract_poll, e)
          (after_turn-keeps stopping r w (abstract_poll call entries rounds w) served
            (abstract_poll-keeps entries rounds w served))
  ]

  -- An invariant of what callbacks read and write, which each callback keeps, for callbacks that
  -- register nothing: `fra_glob_poll` is never undefined, and what they wrote satisfies it while the loop
  -- waits and when it has returned, with whatever code.
  pub glob_poll-keeps :
      ⦃fl : Floats⦄ (rounds : List Round) (s : Poll.State) (v : V)
      → IsQuiet call
      → All (IsFull s.entries) rounds
      → s.locked ≡ false
      → s.initialized ≡ true
      → P v
      → Returns (glob_poll call ok rounds s v) λ o. P (world_of o)
  glob_poll-keeps rounds s v q full free made h =
      Implements-Returns call P s.entries (abstract_poll call s.entries rounds v) _
        (glob_poll-Implements call rounds s v q full free made)
        (abstract_poll-keeps s.entries rounds v h)
