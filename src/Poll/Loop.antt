-- ===== src/Poll/Loop.antt =====
-- `fra_glob_poll` and `fra_glob_poll_stop` of src/poll.c. What `poll` and the mutex return in each round
-- is a list of rounds; when it ends, the loop still waits.
use Prim.Native.Nat.{bit_and}
use fast_cgi_rest_api.Common.{
  ℕ, suc, true, false, Option, none, some, List, [], ◌∷◌, Rc, ok, failed, Run, done, fault, ◌>>=◌,
  get_elem?, ◌==◌, if◌then◌else◌,
}
use fast_cgi_rest_api.Common.Sys.{Floats}
use fast_cgi_rest_api.Poll.{Entry, State, Allocs, unlock, fd_add}

-- What a callback calls: `fra_glob_fd_add` or `fra_req_fd_add`, or `fra_glob_poll_stop`.
pub data Action : Type 0 where
  add : Allocs → Entry → Action
  stop : Action

-- One turn of the loop. `revents` is `none` if `poll` returns no positive number, else what it writes
-- for each descriptor; then the codes of unlocking and locking.
pub record Round : Type 0 where
  pub revents : Option (List ℕ)
  pub unlocked : Rc
  pub locked : Rc

pub data Outcome (W : Type 0) : Type 0 where
  waiting : State → W → Outcome W
  returned : Rc → State → W → Outcome W

-- `fra_glob_poll_stop`, whose `fra_p_lock` does nothing.
unfoldable pub glob_poll_stop : State → Rc × State
glob_poll_stop s = (ok, record s { should_stop = true })

module _ ⦃fl : Floats⦄ where
  -- The calls of a callback, which does not look at their results.
  unfoldable pub act : List Action → State → Run State
  unfolding fd_add
  act [] s = done s
  act (add m e ∷ actions) s = fd_add m s e >>= λ r. act actions r.1
  act (stop ∷ actions) s = act actions (glob_poll_stop s).1

  module _ {W : Type 0} (call : Entry → ℕ → W → W × List Action) where
    -- A callback, with the events of its descriptor.
    unfoldable pub run_callback : Entry → ℕ → State → W → Run (State × W)
    unfolding act
    run_callback e revents s w =
        let (w', actions) = call e revents w in act actions s >>= λ s'. done (s', w')

    -- The inner loop from the index `i` on.
    unfoldable pub dispatch : List ℕ → ℕ → State → W → Run (State × W)
    unfolding run_callback
    dispatch [] i s w = done (s, w)
    dispatch (r ∷ revents) i s w =
        let next = λ (p : State × W). dispatch revents (suc i) p.0 p.1 in
        elim (get_elem? s.entries i) [
          | none ↦ done (s, w)
          | some e ↦
              if bit_and r e.events == 0 then next (s, w) else (run_callback e r s w >>= next)
        ]

    -- The end of a turn, after the callbacks.
    unfoldable pub end_turn : (State → W → Run (Outcome W)) → Round → State → W → Run (Outcome W)
    end_turn next r s w =
        let relocked : Run (Outcome W) = elim r.locked [
          | ok ↦ next s w
          | failed ↦ done (Outcome.returned failed (unlock s) w)
        ] in
        let unlocked : Run (Outcome W) = elim r.unlocked [
          | ok ↦ relocked
          | failed ↦ done (Outcome.returned failed s w)
        ] in
        if s.should_stop then done (Outcome.returned ok s w) else unlocked

    -- The outer loop.
    unfoldable pub poll_loop : List Round → State → W → Run (Outcome W)
    unfolding dispatch end_turn
    poll_loop [] s w = done (Outcome.waiting s w)
    poll_loop (r ∷ rounds) s w = elim r.revents [
      | none ↦ done (Outcome.returned failed (unlock s) w)
      | some revents ↦ dispatch revents 0 s w >>= λ p. end_turn (poll_loop rounds) r p.0 p.1
    ]

    -- `lock` is what the first `pthread_mutex_lock` returns.
    unfoldable pub glob_poll : Rc → List Round → State → W → Run (Outcome W)
    unfolding poll_loop
    glob_poll failed rounds s w = done (Outcome.returned failed s w)
    glob_poll ok rounds s w =
        let entered : Run (Outcome W) =
          poll_loop rounds (record s { locked = true; should_stop = false }) w in
        if s.locked
        then fault
        else if s.initialized
        then entered
        else done (Outcome.returned failed s w)
