-- ===== src/Req/Handled.antt =====
-- `fra_p_req_handle_new` where nothing fails: the request reaches the callback of its endpoint.
use fast_cgi_rest_api.Common.{
  ℕ, ◌≡◌, refl, ap, ◌∙◌, true, false, none, some, List, List-cases, [], ◌∷◌, ◌++◌, append_assoc,
  inl, inr, get_elem?, Rc, ok, ◌>>=◌, ◌==◌,
}
use fast_cgi_rest_api.Common.Sys.{Strings, Floats}
use fast_cgi_rest_api.Hook.{
  Table, req_created, req_incoming, req_new, req_before_endpoint, req_before_fcgx,
  glob_hook_execute, req_hook_execute,
}
use fast_cgi_rest_api.End.{End}
use fast_cgi_rest_api.Url
use fast_cgi_rest_api.Url.Routes.{route, to_endpoint-route}
use fast_cgi_rest_api.Req.Params.{Tag, text, Urls, set_param, set_url, max_verb_length}
use fast_cgi_rest_api.Req.State.{Req, init_request, accepted, handled, finish, State, Input, emit}
use fast_cgi_rest_api.Req.Handle
use fast_cgi_rest_api.Req.Handle.{
  get_req, take_req, run_callback, serve, complete, dispatch, accept, start, reset_req, handle_new,
  fcgx_cleanup, final_cleanup,
}
use fast_cgi_rest_api.Req.Settled.{Ends}
use fast_cgi_rest_api.Req.Answer.{moved}
use fast_cgi_rest_api.Req.Serve.{store_set-Given}
use fast_cgi_rest_api.Req.Outcome.{IsEntered, IsEntered-moved}
use fast_cgi_rest_api.Req.Total.{IsIdle, pooled-IsEntered, new-IsEntered}
use fast_cgi_rest_api.Req.Succeeds.{
  Obliges, Succeeds, before-Succeeds, new-Succeeds, Ends-same, after_new-Ends,
}

module _ ⦃st : Strings⦄ ⦃fl : Floats⦄ {W : Type 0} (call : ℕ → ℕ → W → Rc × W) (inp : Input) where
  -- What is asked of the endpoint `i`: it is `e`, its callback is not NULL, and the hooks return 0.
  pub record Serves (glob_hooks req_hooks : Table) (ends : List End) (i : ℕ) (e : End)
      : Type 0 where
    pub at : get_elem? ends i ≡ some e
    pub callback : (e.callback == 0) ≡ false
    pub obliges : Obliges call glob_hooks req_hooks e

  serve-Ends :
      (s : State W) (req : Req) (i : ℕ) (e : End)
      → IsEntered call inp s req
      → Serves s.glob_hooks s.req_hooks s.ends i e
      → Ends call ok
          (s.events ++ handled i ∷ finish ∷ [])
          (serve call inp s (record req { endpoint = some i }) i)
  unfolding serve Succeeds
  serve-Ends s req i e h v =
      let g =
        store_set-Given call inp s (record req { endpoint = some i }) i e h.ready h.counted h.pools
          refl v.at in
      let o : (w : W)
          → (req_hook_execute (call g.req_after.addr) g.after.req_hooks (some g.e.hooks) req_new
              w).0
            ≡ ok =
        λ w. rw (g.req_hooks, g.hooks) (v.obliges.new g.req_after.addr w) in
      let (w, run) = new-Succeeds call g.after g.req_after i g.e o g.endpoint g.at in
      let t : State W = record g.after { world = w } in
      let called : (g.e.callback == 0) ≡ false = rw g.callback v.callback in
      rw (g.run_done, run)
        (Ends-same call (ap (λ es. es ++ handled i ∷ finish ∷ []) g.events) (
          after_new-Ends call inp t g.req_after i g.e
            (moved call g.after g.req_after t.events w g.flight) g.at called))

  dispatch-Ends :
      (s : State W) (req : Req) (verb : Tag) (u : Urls) (i : ℕ) (e : End)
      → IsEntered call inp s req
      → Serves s.glob_hooks s.req_hooks s.ends i e
      → route s.urls (text verb) (text u.base_url) ≡ some i
      → Ends call ok
          (s.events ++ handled i ∷ finish ∷ [])
          (dispatch call inp s req (some verb) (some u))
  unfolding dispatch Succeeds Handle.route
  dispatch-Ends s req verb u i e h v found =
      let (w, run) = before-Succeeds call s req req_before_endpoint e v.obliges h.endpoint in
      let t : State W = record s { world = w } in
      rw
        (
          dispatch,
          run,
          Handle.route,
          h.endpoint,
          to_endpoint-route s.urls (text verb) (text u.base_url) h.ready.table,
          found,
        )
        (serve-Ends t req i e (IsEntered-moved call inp s req s.events w h) v)

  -- The request is accepted, and leads to the endpoint `i`.
  pub record Leads (table : Url.Table) (i : ℕ) : Type 0 where
    pub accepts : inp.accepts ≡ true
    pub verb : Tag
    pub urls : Urls
    pub method : set_param inp.method max_verb_length ≡ some verb
    pub uri : set_url inp.uri ≡ some urls
    pub found : route table (text verb) (text urls.base_url) ≡ some i

  start-Ends :
      (s : State W) (req : Req) (i : ℕ) (e : End)
      → IsEntered call inp s req
      → Serves s.glob_hooks s.req_hooks s.ends i e
      → Leads s.urls i
      → Ends call ok
          (s.events ++ init_request ∷ accepted ∷ handled i ∷ finish ∷ [])
          (start call inp s req)
  unfolding start accept Succeeds
  start-Ends s req i e h v l =
      let (w, run) = before-Succeeds call s req req_before_fcgx e v.obliges h.endpoint in
      let t : State W = emit accepted (emit init_request (record s { world = w })) in
      let h' = IsEntered-moved call inp s req t.events w h in
      let h'' : IsEntered call inp t (record req { fcgx_defined = true }) = record {
        counted = record { empties = h'.counted.empties; all = h'.counted.all };
        pools = h'.pools;
        endpoint = h'.endpoint;
        ready = h'.ready;
        leads = h'.leads;
      } in
      let d =
        dispatch-Ends t (record req { fcgx_defined = true }) l.verb l.urls i e h'' v l.found in
      simp (start, run, accept, l.accepts, l.method, l.uri)
        (Ends-same call
          (append_assoc (s.events ++ init_request ∷ []) (accepted ∷ []) _
            ∙ append_assoc s.events (init_request ∷ []) _)
          d)

  entered-Ends :
      (s : State W) (r : Req) (i : ℕ) (e : End)
      → IsIdle call inp s
      → Serves s.glob_hooks s.req_hooks s.ends i e
      → Leads s.urls i
      → inp.request ≡ some r
      → Ends call ok (s.events ++ init_request ∷ accepted ∷ handled i ∷ finish ∷ []) (
          get_req call inp.request s >>= λ p. elim p.0 [
            | none ↦ final_cleanup call inp p.1
            | some req ↦ start call inp p.1 (reset_req call req)
          ])
  unfolding get_req take_req Succeeds
  entered-Ends s r i e h v l memory = elim (List-cases s.empty_req) [
    | inl none_left ↦
        let (w, run) =
          before-Succeeds call s r req_created e v.obliges (h.ready.request r memory) in
        rw (get_req, take_req, none_left, memory, run)
          (start-Ends _ (reset_req call r) i e (new-IsEntered call inp s r w h) v l)
    | inr (req, rest, pooled) ↦
        rw (get_req, take_req, pooled)
          (start-Ends _ (reset_req call req) i e (pooled-IsEntered call inp s req rest h pooled) v
            l)
  ]

  -- A request whose verb and url lead to an endpoint with a callback is handled by it, from a state
  -- between two requests: if the routes lead to endpoints, the descriptor is readable, the connection
  -- is accepted, `malloc` returns a block that is not in use and requests without an endpoint in them,
  -- and the global hooks, the hooks for all requests and those of the endpoint return 0. The run ends
  -- with code 0 and no request in use. The connection is initialised, accepted and finished once, and
  -- the callback of that endpoint is called once, before it is finished.
  pub handle_new-handled :
      (s : State W) (r : Req) (i : ℕ) (e : End)
      → IsIdle call inp s
      → inp.pollin ≡ true
      → inp.request ≡ some r
      → Leads s.urls i
      → Serves s.glob_hooks s.req_hooks s.ends i e
      → Ends call ok
          (s.events ++ init_request ∷ accepted ∷ handled i ∷ finish ∷ [])
          (handle_new call inp s)
  unfolding handle_new
  handle_new-handled s r i e h readable memory l v =
      let (rc, w) = glob_hook_execute (call 0) s.glob_hooks req_incoming s.world in
      let t : State W = record s { world = w } in
      let idle : IsIdle call inp t = record {
        settled = record {
          counted = record { empties = h.settled.counted.empties; all = h.settled.counted.all };
          pools = h.settled.pools;
        };
        ready = h.ready;
        leads = h.leads;
      } in
      let good : rc ≡ ok = v.obliges.incoming s.world in
      simp (readable, good) (entered-Ends t r i e idle v l memory)
