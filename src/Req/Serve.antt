-- ===== src/Req/Serve.antt =====
-- The handling of one request, from its first hook to its answer.
use fast_cgi_rest_api.Common.{
  ℕ, ◌≡◌, true, refl, ap, ◌∙◌, Bool-cases, some, [], ◌∷◌, append_assoc, arith, ◌⊎◌, inl, inr,
  get_elem?, get_elem?-set_self, Rc, ok, failed, Rc-cases, Run, done, ◌>>=◌, ◌==◌,
}
use fast_cgi_rest_api.Common.Sys.{Floats}
use fast_cgi_rest_api.Hook.{req_new}
use fast_cgi_rest_api.End
use fast_cgi_rest_api.End.{End, Pool}
use fast_cgi_rest_api.End.Ownership.{Gives, store_set-Gives}
use fast_cgi_rest_api.Req.State.{Req, go_away, finish, handled, State, Input, emit, run_hooks}
use fast_cgi_rest_api.Req.Handle.{
  update_end, store_set, fcgx_cleanup, complete, run_callback, serve,
}
use fast_cgi_rest_api.Req.Settled.{
  no_block, one_block, Holds, IsCounted, IsInFlight, get_elem?-lt, Holds-set, self_block,
}
use fast_cgi_rest_api.Req.Answer.{
  Served, cleaned, with_callback, without_callback, EndsWith, EndsWith-same, IsReady, moved,
  hooks-OnlyWorld, fcgx_cleanup-Ends, complete-Ends,
}

module _ ⦃fl : Floats⦄ {W : Type 0} (call : ℕ → ℕ → W → Rc × W) where
  -- A request with an endpoint that has got its block.
  pub record Given (s : State W) (i : ℕ) (e0 : End) (run : Run (Rc × Req × State W)) : Type 0 where
    pub req_after : Req
    pub after : State W
    pub run_done : run ≡ done (ok, req_after, after)
    pub flight : IsInFlight after req_after
    pub e : End
    pub at : get_elem? after.ends i ≡ some e
    pub events : after.events ≡ s.events
    pub endpoint : req_after.endpoint ≡ some i
    pub callback : e.callback ≡ e0.callback
    pub hooks : e.hooks ≡ e0.hooks
    pub req_hooks : after.req_hooks ≡ s.req_hooks

  -- `fra_p_end_store_set` gives a request a block of its endpoint.
  pub store_set-Given :
      (inp : Input) (s : State W) (req : Req) (i : ℕ) (e : End)
      → IsReady call inp s.req_hooks s.urls s.ends
      → IsCounted 1 s
      → Holds no_block s
      → req.endpoint ≡ some i
      → get_elem? s.ends i ≡ some e
      → Given s i e (store_set call inp.block s req i)
  unfolding store_set
  store_set-Given inp s req i e ready c pools n at =
      let r : Rc × End.PoolReq × W =
        End.store_set (call req.addr) s.req_hooks e.hooks (some ready.block)
          (e.pool, req.endpoint_store) s.world in
      let g : Gives (call req.addr) s.req_hooks [] r =
        store_set-Gives (call req.addr) s.req_hooks e.hooks ready.block e.pool req.endpoint_store
          s.world [] (pools i e at) (ready.fresh i e at) (ready.created i e req.addr s.world at) in
      let u : Rc × Req × State W = update_end call s i e req r in
      let at' =
        get_elem?-set_self s.ends i (record e { pool = r.1.0 }) (get_elem?-lt s.ends i e at) in
      record {
        req_after = u.1;
        after = u.2;
        run_done = rw (store_set, at, ready.memory) (ap (λ k. done (k, u.1, u.2)) g.code);
        flight = record {
          counted = record { empties = c.empties; all = c.all };
          lent = inr (
            i,
            g.block,
            record e { pool = r.1.0 },
            n,
            g.held,
            at',
            Holds-set no_block (one_block i g.block) s i e r.1.0 r.2 at pools (λ j m. ground arith)
                (rw (self_block i g.block) g.owned),
          );
        };
        e = record e { pool = r.1.0 };
        at = at';
        events = refl;
        endpoint = n;
        callback = refl;
        hooks = refl;
        req_hooks = refl;
      }

  run_callback-done :
      (s : State W) (req : Req) (i : ℕ) (e : End)
      → get_elem? s.ends i ≡ some e
      → (run_callback call s req i ≡ done s)
        ⊎ ((w : W) × (run_callback call s req i ≡ done (emit (handled i) (record s { world = w }))))
  unfolding run_callback
  run_callback-done s req i e at = elim (Bool-cases (e.callback == 0)) [
    | inl null ↦ inl (rw (run_callback, at, null))
    | inr set_before ↦ inr ((call req.addr e.callback s.world).1, rw (run_callback, at, set_before))
  ]

  -- A callback that is not NULL is called once.
  after_new :
      (inp : Input) (s : State W) (req : Req) (i : ℕ) (e : End)
      → IsInFlight s req
      → get_elem? s.ends i ≡ some e
      → EndsWith call Served s.events (run_callback call s req i >>= λ u. complete call inp u req)
  after_new inp s req i e h at = elim (run_callback-done s req i e at) [
    | inl run ↦ record {
      rc = ok;
      new = finish ∷ [];
      allowed = without_callback;
      ends = rw run (complete-Ends call inp s req h);
    }
    | inr (w, run) ↦
        let t = emit (handled i) (record s { world = w }) in
        let c = complete-Ends call inp t req (moved call s req t.events w h) in
        record {
          rc = ok;
          new = handled i ∷ finish ∷ [];
          allowed = with_callback i;
          ends = record {
            after = c.after;
            run_done = rw run c.run_done;
            settled = c.settled;
            events = c.events ∙ append_assoc s.events (handled i ∷ []) (finish ∷ []);
          };
        }
  ]

  -- A failure before the callback: the client is told to go away.
  pub cleaned_up :
      (inp : Input) (s : State W) (req : Req)
      → inp.accepts ≡ true
      → IsInFlight s req
      → EndsWith call Served s.events (fcgx_cleanup call inp s req)
  cleaned_up inp s req accepts h = record {
    rc = failed;
    new = go_away ∷ finish ∷ [];
    allowed = cleaned;
    ends = fcgx_cleanup-Ends call inp s req accepts h;
  }

  given-Served :
      (inp : Input) (s : State W) (req : Req) (i : ℕ) (e : End)
      → inp.accepts ≡ true
      → IsInFlight s req
      → get_elem? s.ends i ≡ some e
      → EndsWith call Served s.events (
          run_hooks call s req req_new >>= λ r. elim r.0 [
            | failed ↦ fcgx_cleanup call inp r.1 req
            | ok ↦ run_callback call r.1 req i >>= λ u. complete call inp u req
          ])
  given-Served inp s req i e accepts h at =
      let (rc, w, run) = hooks-OnlyWorld call s req req_new h in
      let t : State W = record s { world = w } in
      let h' : IsInFlight t req = moved call s req s.events w h in
      elim (Rc-cases rc) [
        | inl good ↦ rw (run, good) (after_new inp t req i e h' at)
        | inr bad ↦ rw (run, bad) (cleaned_up inp t req accepts h')
      ]

  pub serve-Served :
      (inp : Input) (s : State W) (req : Req) (i : ℕ) (e : End)
      → inp.accepts ≡ true
      → IsReady call inp s.req_hooks s.urls s.ends
      → IsCounted 1 s
      → Holds no_block s
      → req.endpoint ≡ some i
      → get_elem? s.ends i ≡ some e
      → EndsWith call Served s.events (serve call inp s req i)
  unfolding serve
  serve-Served inp s req i e accepts ready c pools n at =
      let g = store_set-Given inp s req i e ready c pools n at in
      rw g.run_done (
        EndsWith-same call g.events
          (given-Served inp g.after g.req_after i g.e accepts g.flight g.at))
