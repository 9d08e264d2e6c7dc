-- ===== src/Server/Loop.antt =====
-- `fra_p_req_handle_new` under `fra_glob_poll` of src/poll.c, beside other callbacks.
use fast_cgi_rest_api.Common.{ℕ, ◌≡◌, Bool, Bool-cases, List, inl, inr, Rc, Run, done, fault, All}
use fast_cgi_rest_api.Common.Sys.{Strings, Floats}
use fast_cgi_rest_api.Poll
use fast_cgi_rest_api.Poll.{
  Entry, poll_init, glob_fd_add, fd_add, write_entry, main_poll_maybe_grow,
}
use fast_cgi_rest_api.Poll.Refinement.{IsStop, IsQuiet}
use fast_cgi_rest_api.Req.State.{State, Input}
use fast_cgi_rest_api.Server.{requested, callback}
use fast_cgi_rest_api.Server.Sequence.{Served}

module _ ⦃st : Strings⦄ ⦃fl : Floats⦄ {W : Type 0} (call : ℕ → ℕ → W → Rc × W)
    (outside : State W → Input) (handler : ℕ) (others : Entry → ℕ → W → W)
    (stops : State W → Bool) where
  -- The state after some more requests.
  pub record Later (s : State W) (run : Run (State W)) : Type 0 where
    pub after : State W
    pub rcs : List Rc
    pub run_done : run ≡ done after
    pub served : Served call outside s rcs after

  requested-stops : (run : Run (State W)) → All IsStop (requested call outside stops run)
  requested-stops (done t) = elim (Bool-cases (stops t)) [
    | inl halt ↦ rw halt (tt, tt)
    | inr more ↦ rw more tt
  ]
  requested-stops fault = tt

  pub callback-IsQuiet : IsQuiet (callback call outside handler others stops)
  unfolding callback
  callback-IsQuiet e r run = requested-stops _
