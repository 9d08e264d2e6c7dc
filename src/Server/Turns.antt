-- ===== src/Server/Turns.antt =====
-- `fra_glob_poll` of src/poll.c with `fra_p_req_handle_new` as its one callback: the handler called for
-- one request after another.
use Prim.Native.Nat.{bit_and}
use fast_cgi_rest_api.Common.{
  ℕ, ◌≡◌, refl, ap, subst, ◌∙◌, Bool, true, false, none, some, List, arith, [], ◌∷◌, map, Rc, ok,
  Run, done, fault, ◌>>=◌, All, length, ◌==◌,
}
use fast_cgi_rest_api.Common.Sys.{Strings, Floats}
use fast_cgi_rest_api.Poll
use fast_cgi_rest_api.Poll.{
  Entry, poll_init, glob_fd_add, fd_add, write_entry, main_poll_maybe_grow,
}
use fast_cgi_rest_api.Poll.Descriptors.{plenty, starting}
use fast_cgi_rest_api.Poll.Loop.{Round, Outcome, glob_poll}
use fast_cgi_rest_api.Poll.Rounds.{ready}
use fast_cgi_rest_api.Poll.Refinement.{
  running, stops, IsFull, Implements, serve, after_turn, abstract_poll, glob_poll-Implements,
}
use fast_cgi_rest_api.Req.State.{State, Input}
use fast_cgi_rest_api.Server.{receive, receive_each, is_handler, requested, callback}
use fast_cgi_rest_api.Server.Loop.{callback-IsQuiet}

-- A turn of the loop in which `poll` reports on the one descriptor, and the mutex works.
abbrev pub turn : ℕ → Round
turn revents = record { revents = some (revents ∷ []); unlocked = ok; locked = ok }

-- `fra_p_poll_init` registers the handler, and it alone.
abbrev pub listener : ℕ → Entry
listener handler = record { fd = 0; events = Poll.pollin; req = none; cb = handler }

abbrev pub listening : ℕ → Poll.State
listening handler = record {
  initialized = true;
  entries = listener handler ∷ [];
  main_poll_max_len = Poll.initial_size;
  poll_bytes = 80;
  callback_bytes = 40;
  locked = false;
  should_stop = false;
}

pub poll_init-listening :
    ⦃fl : Floats⦄ (handler : ℕ)
    → poll_init ok ok true true plenty starting handler ≡ done (ok, listening handler)
unfolding poll_init glob_fd_add fd_add write_entry main_poll_maybe_grow
poll_init-listening handler = refl

module _ ⦃st : Strings⦄ ⦃fl : Floats⦄ {W : Type 0} (call : ℕ → ℕ → W → Rc × W)
    (outside : State W → Input) (handler : ℕ) (others : Entry → ℕ → W → W) where
  -- No callback stops the loop.
  abbrev endless : State W → Bool
  endless s = false

  -- One more call of the handler.
  abbrev next : ℕ → Run (State W) → Run (State W)
  next r run = run >>= λ s. receive call outside r s >>= λ p. done p.1

  requested_none : (run : Run (State W)) → requested call outside endless run ≡ []
  requested_none (done t) = refl
  requested_none fault = refl

  callback-next :
      (r : ℕ) (run : Run (State W))
      → callback call outside handler others endless (listener handler) r run ≡ (next r run, [])
  unfolding callback is_handler
  callback-next r run =
      let ours : (handler == handler) ≡ true = ground arith in
      simp (ours, requested_none (next r run)) refl

  serve_once :
      (r : ℕ) (run : Run (State W)) (rounds : List Round)
      → (bit_and r Poll.pollin == 0) ≡ false
      → abstract_poll
          (callback call outside handler others endless)
          (listener handler ∷ [])
          (turn r ∷ rounds)
          run
        ≡ abstract_poll
            (callback call outside handler others endless)
            (listener handler ∷ [])
            rounds
            (next r run)
  unfolding abstract_poll ready serve after_turn stops
  serve_once r run rounds h =
      simp (abstract_poll, ready, h, serve, callback-next r run, after_turn, stops) refl

  -- The state after some calls of the handler, one after another.
  abbrev pub after_each : List ℕ → Run (State W) → Run (State W)
  after_each revents run = run >>= λ s. receive_each call outside revents s >>= λ p. done p.1

  put_code :
      (rc : Rc) (run : Run (List Rc × State W))
      → (run >>= λ (q : List Rc × State W). done q.1) ≡ (
          (run >>= λ (q : List Rc × State W). done (rc ∷ q.0, q.1)) >>= λ (q : List Rc × State W).
          done q.1)
  put_code rc (done q) = refl
  put_code rc fault = refl

  tail_each :
      (received : Run (Rc × State W)) (revents : List ℕ)
      → after_each revents (received >>= λ (p : Rc × State W). done p.1) ≡ (
          (received >>= λ (p : Rc × State W).
          receive_each call outside revents p.1 >>= λ (q : List Rc × State W).
          done (p.0 ∷ q.0, q.1))
          >>= λ (q : List Rc × State W). done q.1)
  tail_each fault revents = refl
  tail_each (done (rc, t)) revents = put_code rc (receive_each call outside revents t)

  after_each-next :
      (r : ℕ) (revents : List ℕ) (run : Run (State W))
      → after_each revents (next r run) ≡ after_each (r ∷ revents) run
  unfolding receive_each
  after_each-next r revents (done s) = tail_each (receive call outside r s) revents
  after_each-next r revents fault = refl

  serve_each :
      (revents : List ℕ) (run : Run (State W))
      → All (λ r. (bit_and r Poll.pollin == 0) ≡ false) revents
      → abstract_poll
          (callback call outside handler others endless)
          (listener handler ∷ [])
          (map turn revents)
          run
        ≡ (running, after_each revents run)
  unfolding receive_each abstract_poll
  serve_each [] (done s) h = refl
  serve_each [] fault h = refl
  serve_each (r ∷ revents) run h =
      serve_once r run (map turn revents) h.0
      ∙ serve_each revents (next r run) h.1
      ∙ ap (λ x. (running, x)) (after_each-next r revents run)

  turn-IsFull : (revents : List ℕ) → All (IsFull (listener handler ∷ [])) (map turn revents)
  turn-IsFull [] = tt
  turn-IsFull (r ∷ revents) = (
    λ l e. (let same : r ∷ [] ≡ l = cc in subst (λ (x : List ℕ). length x ≡ 1) same refl),
    turn-IsFull revents,
  )

  pub listening-receive_each :
      (revents : List ℕ) (s : State W)
      → All (λ r. (bit_and r Poll.pollin == 0) ≡ false) revents
      → (t : Poll.State) × (glob_poll
            (callback call outside handler others endless)
            ok
            (map turn revents)
            (listening handler)
            (done s)
          ≡ done (Outcome.waiting t (after_each revents (done s))))
  listening-receive_each revents s h =
      let cb = callback call outside handler others endless in
      let p : Poll.State = listening handler in
      let how =
        subst
          (λ x.
            Implements cb (listener handler ∷ []) x (glob_poll cb ok (map turn revents) p (done s)))
          (serve_each revents (done s) h)
          (glob_poll-Implements cb (map turn revents) p (done s)
            (callback-IsQuiet call outside handler others endless) (turn-IsFull revents) refl
            refl) in
      let (t, run, _, _) = how in (t, run)

  -- From the start on with memory, `fra_p_poll_init` registers the handler. Then `fra_glob_poll` is
  -- the handler called for one request after another: if in each turn there is something to read, the
  -- mutex works and nothing stops the loop, then after any number of turns it still waits, and what
  -- callbacks read and write is that after the calls of `fra_p_req_handle_new` with these events.
  pub glob_poll-receive_each :
      (revents : List ℕ) (s : State W)
      → All (λ r. (bit_and r Poll.pollin == 0) ≡ false) revents
      → (p t : Poll.State) × (poll_init ok ok true true plenty starting handler ≡ done (ok, p))
        × (glob_poll (callback call outside handler others endless) ok (map turn revents) p (done s)
            ≡ done (Outcome.waiting t (after_each revents (done s))))
  glob_poll-receive_each revents s h =
      let (t, run) = listening-receive_each revents s h in
      (listening handler, t, poll_init-listening handler, run)
