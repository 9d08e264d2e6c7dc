-- ===== src/Server.antt =====
-- The server as a whole: `fra_p_req_handle_new` of src/req.c as the callback that `fra_p_poll_init` of
-- src/poll.c registers, for one request after another and under `fra_glob_poll`.
pub mod Sequence
pub mod Balance
pub mod Loop
pub mod Turns
use Prim.Native.Nat.{bit_and}
use fast_cgi_rest_api.Common.{
  ℕ, true, false, not, none, some, List, [], ◌∷◌, Rc, Run, done, fault, ◌>>=◌, ◌==◌, if◌then◌else◌,
  Bool,
}
use fast_cgi_rest_api.Common.Sys.{Strings, Floats}
use fast_cgi_rest_api.Poll
use fast_cgi_rest_api.Poll.{Entry}
use fast_cgi_rest_api.Poll.Loop.{Action, stop}
use fast_cgi_rest_api.Req.State.{State, Input}
use fast_cgi_rest_api.Req.Handle.{handle_new}

-- What the handler gets, for the events of its descriptor.
abbrev pub with_events : ℕ → Input → Input
with_events revents inp = record inp { pollin = not (bit_and revents Poll.pollin == 0) }

-- Whether `fra_p_req_handle_new`, at the address `handler`, is the callback of a descriptor.
unfoldable pub is_handler : ℕ → Entry → Bool
is_handler handler e = elim e.req [ none ↦ e.cb == handler | some r ↦ false ]

-- `outside` is what the handler gets from outside in each state: as the state has all that was written
-- before, this can be anything at any time.
module _ ⦃st : Strings⦄ ⦃fl : Floats⦄ {W : Type 0} (call : ℕ → ℕ → W → Rc × W)
    (outside : State W → Input) where
  -- One call of the handler.
  unfoldable pub receive : ℕ → State W → Run (Rc × State W)
  receive revents s = handle_new call (with_events revents (outside s)) s

  -- One call after another, with the codes that they return.
  unfoldable pub receive_each : List ℕ → State W → Run (List Rc × State W)
  unfolding receive
  receive_each [] s = done ([], s)
  receive_each (r ∷ revents) s = do
    (rc, t) ← receive r s
    (rcs, u) ← receive_each revents t
    done (rc ∷ rcs, u)

  -- What a callback under the loop does: it calls `fra_glob_poll_stop` if `stops` says so.
  abbrev pub requested : (State W → Bool) → Run (State W) → List Action
  requested stops (done t) = if stops t then stop ∷ [] else []
  requested stops fault = []

  -- A callback of `fra_glob_poll`: the handler, or another, which works on what callbacks read and
  -- write.
  unfoldable pub callback :
      (handler : ℕ)
      → (others : Entry → ℕ → W → W) → (State W → Bool)
      → Entry
      → ℕ
      → Run (State W)
      → Run (State W) × List Action
  unfolding receive
  callback handler others stops e revents run =
      let after : Run (State W) = run >>= λ s.
      if is_handler handler e
      then (receive revents s >>= λ r. done r.1)
      else done (record s { world = others e revents s.world }) in
      (after, requested stops after)
