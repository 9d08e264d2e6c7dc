-- ===== src/Demo/Loop.antt =====
-- The whole of `main` of src/example/fra-server-example.c: its set-up and the loop that serves requests.
use Prim.Native.Nat.{bit_and}
use fast_cgi_rest_api.Common.{
  ℕ, ◌≡◌, length, refl, false, some, List, map, Rc, ok, done, ◌>>=◌, All, ◌==◌,
}
use fast_cgi_rest_api.Common.Sys.{Strings, Floats}
use fast_cgi_rest_api.Hook.{req_hook_execute, hook_execute, run_hooks}
use fast_cgi_rest_api.Poll
use fast_cgi_rest_api.Poll.Loop.{Outcome}
use fast_cgi_rest_api.Req.State.{State, Input}
use fast_cgi_rest_api.Server.Sequence.{Served, Connects, Creates, receive_each-Served}
use fast_cgi_rest_api.Server.Turns.{turn, listening-receive_each}
use fast_cgi_rest_api.Demo.{Program, App, serving, server, no_others}
use fast_cgi_rest_api.Demo.Calls.{enough}
use fast_cgi_rest_api.Demo.Setup.{IsSetUp}
use fast_cgi_rest_api.Demo.Main.{unstarted, all_well, main-IsServing}

module _ ⦃st : Strings⦄ ⦃fl : Floats⦄ (p : Program) {W : Type 0} (call : ℕ → ℕ → W → Rc × W)
    (outside : State W → Input) where
  -- A run of the example server after some turns of its loop.
  pub record Runs (revents : List ℕ) (w : W) : Type 0 where
    pub app : App
    pub set_up : IsSetUp p app
    pub poll : Poll.State
    pub after : State W
    pub rcs : List Rc
    pub count : length rcs ≡ length revents
    pub run_done :
        server call outside all_well (λ n. enough) p ok (map turn revents) w unstarted
        ≡ done (some (Outcome.waiting poll (done after)))
    pub served : Served call outside (serving app w) rcs after

  -- `main` registers no hook for new requests.
  set_up-Creates : (a : App) (w : W) → IsSetUp p a → Creates call outside (serving a w).req_hooks
  unfolding Creates req_hook_execute hook_execute run_hooks
  set_up-Creates a w h addr v = rw h.req_hooks refl

  -- The example server from its start on, with memory and working locks: after any number of turns of
  -- its loop, in each of which there is something to read, whatever the callbacks return and whatever
  -- verbs and urls the connections have. In each state the calls of `FCGX_Accept_r` succeed, and `malloc`
  -- returns a block that is not in use and, if no request is free, one without an endpoint. Then `main` is still in its loop, with the hooks, urls and endpoints
  -- that it has set up; each turn has got an answer of `Answer`, the pool has at most one request,
  -- and the state is one between two requests.
  pub server-Served :
      (revents : List ℕ) (w : W)
      → All (λ r. (bit_and r Poll.pollin == 0) ≡ false) revents
      → ((s : State W) → Connects call outside s)
      → Runs revents w
  unfolding server
  server-Served revents w readable m =
      let (r, run, (code, a, made, set_up, serves)) = main-IsServing p in
      let s : State W = serving a w in
      let (t, polled) =
        listening-receive_each call outside p.handle_new no_others revents s readable in
      let (q, received, (count, served)) =
        receive_each-Served call outside revents s (serves W call outside w) m
          (set_up-Creates a w set_up) in
      record {
        app = a;
        set_up = set_up;
        poll = t;
        after = q.1;
        rcs = q.0;
        count = count;
        run_done = rw (server, run, ◌>>=◌, code, made, polled, received) refl;
        served = served;
      }
