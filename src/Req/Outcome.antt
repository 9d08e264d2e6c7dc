-- ===== src/Req/Outcome.antt =====
-- `fra_p_req_handle_new` from its first hook on, for a request that `get_req` returned.
use fast_cgi_rest_api.Common.{
  ℕ, ◌≡◌, refl, ◌∙◌, true, Option, none, some, Option-cases, List, [], ◌∷◌, ◌++◌, append_assoc, inl,
  inr, get_elem?, Rc, failed, Rc-cases, Run,
}
use fast_cgi_rest_api.Common.Sys.{Bytes, Strings, Floats}
use fast_cgi_rest_api.Hook.{req_before_endpoint, req_before_fcgx}
use fast_cgi_rest_api.End.{End}
use fast_cgi_rest_api.Url.Routes.{route, to_endpoint-route}
use fast_cgi_rest_api.Req.Params.{Tag, text, Urls, set_param, set_url, max_verb_length}
use fast_cgi_rest_api.Req.State.{
  Req, Event, init_request, accepted, turned_away, State, Input, emit,
}
use fast_cgi_rest_api.Req.Handle
use fast_cgi_rest_api.Req.Handle.{
  get_req, dispatch, accept, start, reset_req, handle_new, fcgx_cleanup, final_cleanup,
}
use fast_cgi_rest_api.Req.Settled.{no_block, Holds, IsCounted, IsInFlight, Ends}
use fast_cgi_rest_api.Req.Answer.{
  Served, Answer, refused, served, EndsWith, IsReady, hooks-OnlyWorld, req_cleanup-Ends,
}
use fast_cgi_rest_api.Req.Serve.{serve-Served, cleaned_up}

module _ ⦃st : Strings⦄ ⦃fl : Floats⦄ {W : Type 0} (call : ℕ → ℕ → W → Rc × W) (inp : Input) where
  -- A state in which a request `req` without an endpoint is being handled.
  pub record IsEntered (s : State W) (req : Req) : Type 0 where
    pub counted : IsCounted 1 s
    pub pools : Holds no_block s
    pub endpoint : req.endpoint ≡ none
    pub ready : IsReady call inp s.req_hooks s.urls s.ends
    pub leads :
        (v u : Bytes) (i : ℕ)
        → route s.urls v u ≡ some i
        → (e : End) × (get_elem? s.ends i ≡ some e)

  pub in_flight : (s : State W) (req : Req) → IsEntered s req → IsInFlight s req
  in_flight s req h = record { counted = h.counted; lent = inl (h.endpoint, h.pools) }

  pub IsEntered-moved :
      (s : State W) (req : Req) (es : List Event) (w : W)
      → IsEntered s req
      → IsEntered (record s { events = es; world = w }) req
  IsEntered-moved s req es w h = record {
    counted = record { empties = h.counted.empties; all = h.counted.all };
    pools = h.pools;
    endpoint = h.endpoint;
    ready = h.ready;
    leads = h.leads;
  }

  -- The answers of an accepted request follow its initialisation.
  Served-Answer :
      (es : List Event) (run : Run (Rc × State W))
      → EndsWith call Served ((es ++ init_request ∷ []) ++ accepted ∷ []) run
      → EndsWith call Answer es run
  Served-Answer es run h = record {
    rc = h.rc;
    new = init_request ∷ accepted ∷ h.new;
    allowed = served h.allowed;
    ends = record {
      after = h.ends.after;
      run_done = h.ends.run_done;
      settled = h.ends.settled;
      events =
          h.ends.events
          ∙ append_assoc (es ++ init_request ∷ []) (accepted ∷ []) h.new
          ∙ append_assoc es (init_request ∷ []) (accepted ∷ h.new);
    };
  }

  pub refused-Answer :
      (es : List Event) (run : Run (Rc × State W))
      → Ends call failed (es ++ turned_away ∷ []) run
      → EndsWith call Answer es run
  refused-Answer es run e = record {
    rc = failed;
    new = turned_away ∷ [];
    allowed = refused;
    ends = e;
  }

  module _ (accepts : inp.accepts ≡ true) (turned : inp.turned_accepts ≡ true) where
    route-Served :
        (s : State W) (req : Req) (verb base : Bytes)
        → IsEntered s req
        → EndsWith call Served s.events (Handle.route call inp s req verb base)
    unfolding Handle.route
    route-Served s req verb base h = elim (Option-cases (route s.urls verb base)) [
      | inl missing ↦
          rw (Handle.route, h.endpoint, to_endpoint-route s.urls verb base h.ready.table, missing)
            (cleaned_up call inp s req accepts (in_flight s req h))
      | inr (i, found) ↦
          let (e, at) = h.leads verb base i found in
          rw (Handle.route, h.endpoint, to_endpoint-route s.urls verb base h.ready.table, found)
            (serve-Served call inp s (record req { endpoint = some i }) i e accepts h.ready
              h.counted h.pools refl at)
    ]

    dispatch-Served :
        (s : State W) (req : Req) (verb : Option Tag) (urls : Option Urls)
        → IsEntered s req
        → EndsWith call Served s.events (dispatch call inp s req verb urls)
    unfolding dispatch
    dispatch-Served s req none urls h = cleaned_up call inp s req accepts (in_flight s req h)
    dispatch-Served s req (some verb) none h = cleaned_up call inp s req accepts (in_flight s req h)
    dispatch-Served s req (some verb) (some u) h =
        let (rc, w, run) = hooks-OnlyWorld call s req req_before_endpoint (in_flight s req h) in
        let t : State W = record s { world = w } in
        let h' : IsEntered t req = IsEntered-moved s req s.events w h in
        elim (Rc-cases rc) [
          | inl good ↦ rw (run, good) (route-Served t req (text verb) (text u.base_url) h')
          | inr bad ↦ rw (run, bad) (cleaned_up call inp t req accepts (in_flight t req h'))
        ]

    accept-Answer :
        (s : State W) (req : Req)
        → IsEntered s req
        → EndsWith call Answer s.events (accept call inp s req)
    unfolding accept
    accept-Answer s req h =
        let s' = emit init_request s in
        let h' : IsEntered s' req = IsEntered-moved s req s'.events s.world h in
        let t = emit accepted s' in
        let req' : Req = record req { fcgx_defined = true } in
        let h'' : IsEntered t req' = record {
          counted = record { empties = h.counted.empties; all = h.counted.all };
          pools = h.pools;
          endpoint = h.endpoint;
          ready = h.ready;
          leads = h.leads;
        } in
        simp (accept, accepts)
          (Served-Answer s.events _
            (dispatch-Served t req' (set_param inp.method max_verb_length) (set_url inp.uri) h''))

    pub start-Answer :
        (s : State W) (req : Req)
        → IsEntered s req
        → EndsWith call Answer s.events (start call inp s req)
    unfolding start
    start-Answer s req h =
        let (rc, w, run) = hooks-OnlyWorld call s req req_before_fcgx (in_flight s req h) in
        let t : State W = record s { world = w } in
        let h' : IsEntered t req = IsEntered-moved s req s.events w h in
        elim (Rc-cases rc) [
          | inl good ↦ rw (run, good) (accept-Answer t req h')
          | inr bad ↦
              rw (run, bad)
                (refused-Answer s.events _
                  (req_cleanup-Ends call inp t req turned (in_flight t req h')))
        ]
