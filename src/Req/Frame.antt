-- ===== src/Req/Frame.antt =====
-- What the handling of a request in src/req.c leaves as it is: the hooks, the urls, and the endpoints
-- but for their pools.
use fast_cgi_rest_api.Common.{
  [], arith, ◌≤◌, ℕ, ◌+◌, ◌-◌, ◌≡◌, Option, none, some, Option-cases, List-cases, inl, inr,
  get_elem?, Rc, ok, failed, done, ◌>>=◌, ◌==◌,
}
use fast_cgi_rest_api.Common.Sys.{Bytes, Strings, Floats}
use fast_cgi_rest_api.Hook.{
  req_created, req_incoming, req_before_fcgx, req_before_endpoint, req_new, glob_hook_execute,
}
use fast_cgi_rest_api.Url
use fast_cgi_rest_api.Req.Params.{Tag, text, Urls}
use fast_cgi_rest_api.Req.State.{Req, State, Input, go_away, finish, handled, emit, run_hooks}
use fast_cgi_rest_api.Req.Handle
use fast_cgi_rest_api.Req.Handle.{
  get_req, take_req, update_end, store_set, give_back, store_maybe_free, req_release,
  req_maybe_free, final_cleanup, req_cleanup, fcgx_cleanup, complete, run_callback, serve, dispatch,
  accept, reset_req, start, handle_new,
}
use fast_cgi_rest_api.Req.Kept.{
  run_hooks-Keeps, store_set-Keeps, req_maybe_free-Keeps, shape, Keeps, keep, keep_fault, keep_then,
  keep_into, Within, Limits, keep_rc, keep_if, keep_same, last, after_req,
}

module _ ⦃fl : Floats⦄ {W : Type 0} where
  module _ (call : ℕ → ℕ → W → Rc × W) (sh : Limits) where
    final_cleanup-Keeps :
        (inp : Input) (s : State W) → Within sh s → Keeps last sh (final_cleanup call inp s)
    unfolding final_cleanup
    final_cleanup-Keeps inp s h =
        keep_if last sh inp.turned_accepts _ _ (keep last sh _ h) (keep_fault last sh)

    fcgx_cleanup-Keeps :
        (inp : Input) (s : State W) (req : Req)
        → Within sh s
        → Keeps last sh (fcgx_cleanup call inp s req)
    unfolding fcgx_cleanup
    fcgx_cleanup-Keeps inp s req h =
        keep_if last sh inp.accepts _ _
          (keep_then last last sh (req_maybe_free call (emit finish (emit go_away s)) req) _
            (req_maybe_free-Keeps call sh _ req h) (λ r e. keep last sh _ e))
          (keep_fault last sh)

    run_callback-Keeps :
        (s : State W) (req : Req) (i : ℕ)
        → Within sh s
        → Keeps (λ t. t) sh (run_callback call s req i)
    unfolding run_callback
    run_callback-Keeps s req i h = elim (Option-cases (get_elem? s.ends i)) [
      | inl missing ↦ rw (run_callback, missing) (keep_fault (λ t. t) sh)
      | inr (e, at) ↦
          rw (run_callback, at)
            (keep_if (λ t. t) sh (e.callback == 0) _ _ (keep (λ t. t) sh _ h)
              (keep (λ t. t) sh
                (emit (handled i) (record s { world = (call req.addr e.callback s.world).1 })) h))
    ]

    complete-Keeps :
        (inp : Input) (s : State W) (req : Req)
        → Within sh s
        → Keeps last sh (complete call inp s req)
    unfolding complete
    complete-Keeps inp s req h =
        keep_then last last sh (req_maybe_free call (emit finish s) req) _
          (req_maybe_free-Keeps call sh _ req h)
          (λ r e. keep_rc last sh r.0 _ _ (keep last sh _ e) (final_cleanup-Keeps inp r.1 e))

    serve-Keeps :
        (inp : Input) (s : State W) (req : Req) (i : ℕ)
        → Within sh s
        → Keeps last sh (serve call inp s req i)
    unfolding serve
    serve-Keeps inp s req i h =
        keep_then after_req last sh (store_set call inp.block s req i) _
          (store_set-Keeps call sh inp.block s req i h)
          (λ r e.
            keep_rc last sh r.0 _ _
              (keep_then last last sh (run_hooks call r.2 r.1 req_new) _
                (run_hooks-Keeps call sh r.2 r.1 req_new e)
                (λ r' e'.
                  keep_rc last sh r'.0 _ _
                    (keep_then (λ t. t) last sh (run_callback call r'.1 r.1 i) _
                      (run_callback-Keeps r'.1 r.1 i e') (λ u k. complete-Keeps inp u r.1 k))
                    (fcgx_cleanup-Keeps inp r'.1 r.1 e')))
              (fcgx_cleanup-Keeps inp r.2 r.1 e))

    new-Keeps :
        (block : Option Req) (s : State W)
        → shape s ≡ sh.0
        → s.all_count + 1 ≤ sh.1
        → Keeps last sh (elim block [
          | none ↦ done (none, s)
          | some req ↦ do
            (rc, s') ← run_hooks call s req req_created
            elim rc [
              | ok ↦ done (some req, record s' { all_count = s'.all_count + 1 })
              | failed ↦ done (none, s')
            ]
        ])
    new-Keeps none s h room = keep last sh _ (h, omega (arith, room))
    new-Keeps (some req) s h room =
        let before : Limits = (sh.0, s.all_count) in
        keep_into last last before sh (run_hooks call s req req_created) _
          (run_hooks-Keeps call before s req req_created (h, omega arith))
          (λ r e.
            keep_rc last sh r.0 _ _ (keep last sh _ (e.0, omega (arith, e.1, room)))
              (keep last sh _ (e.0, omega (arith, e.1, room))))

    take_req-Keeps :
        (block : Option Req) (s : State W)
        → Within sh s
        → (s.empty_req ≡ [] → s.all_count + 1 ≤ sh.1)
        → Keeps last sh (take_req call block s)
    unfolding take_req
    take_req-Keeps block s h room = elim (List-cases s.empty_req) [
      | inr (req, rest, e) ↦
          rw (take_req, e)
            (keep last sh (some req, record s { empty_req = rest; empty_count = s.empty_count - 1 })
              h)
      | inl e ↦ rw (take_req, e) (new-Keeps block s h.0 (room e))
    ]

    get_req-Keeps :
        (block : Option Req) (s : State W)
        → Within sh s
        → (s.empty_req ≡ [] → s.all_count + 1 ≤ sh.1)
        → Keeps last sh (get_req call block s)
    unfolding get_req
    get_req-Keeps block s h room =
        keep_then last last sh (take_req call block s) _ (take_req-Keeps block s h room) (λ r e.
          elim (Option-cases r.0) [
            | inl n ↦ rw n (keep_fault last sh)
            | inr (req, n) ↦ rw n (keep last sh (some req, r.1) e)
          ])

    module _ ⦃st : Strings⦄ (inp : Input) where
      chosen-Keeps :
          (s : State W) (req : Req) (o : Option ℕ)
          → Within sh s
          → Keeps last sh (elim o [
            | none ↦ fcgx_cleanup call inp s req
            | some i ↦ serve call inp s (record req { endpoint = some i }) i
          ])
      chosen-Keeps s req none h = fcgx_cleanup-Keeps inp s req h
      chosen-Keeps s req (some i) h = serve-Keeps inp s _ i h

      route-Keeps :
          (s : State W) (req : Req) (verb base : Bytes)
          → Within sh s
          → Keeps last sh (Handle.route call inp s req verb base)
      unfolding Handle.route
      route-Keeps s req verb base h = elim (Option-cases req.endpoint) [
        | inr (i, e) ↦ rw (Handle.route, e) (serve-Keeps inp s req i h)
        | inl e ↦
            rw (Handle.route, e)
              (keep_then (λ a. s) last sh (Url.to_endpoint s.urls verb base) _ (keep_same s sh _ h)
                (λ o k. chosen-Keeps s req o h))
      ]

      dispatch-Keeps :
          (s : State W) (req : Req) (verb : Option Tag) (urls : Option Urls)
          → Within sh s
          → Keeps last sh (dispatch call inp s req verb urls)
      unfolding dispatch
      dispatch-Keeps s req none urls h = fcgx_cleanup-Keeps inp s req h
      dispatch-Keeps s req (some verb) none h = fcgx_cleanup-Keeps inp s req h
      dispatch-Keeps s req (some verb) (some u) h =
          keep_then last last sh (run_hooks call s req req_before_endpoint) _
            (run_hooks-Keeps call sh s req req_before_endpoint h)
            (λ r e.
              keep_rc last sh r.0 _ _ (route-Keeps r.1 req (text verb) (text u.base_url) e)
                (fcgx_cleanup-Keeps inp r.1 req e))

      accept-Keeps : (s : State W) (req : Req) → Within sh s → Keeps last sh (accept call inp s req)
      unfolding accept
      accept-Keeps s req h =
          keep_if last sh inp.accepts _ _ (dispatch-Keeps _ _ _ _ h)
            (fcgx_cleanup-Keeps inp _ req h)

      start-Keeps : (s : State W) (req : Req) → Within sh s → Keeps last sh (start call inp s req)
      unfolding start req_cleanup
      start-Keeps s req h =
          keep_then last last sh (run_hooks call s req req_before_fcgx) _
            (run_hooks-Keeps call sh s req req_before_fcgx h)
            (λ r e. keep_rc last sh r.0 _ _ (accept-Keeps r.1 req e) (
              keep_then last last sh (req_maybe_free call r.1 req) _
                (req_maybe_free-Keeps call sh r.1 req e)
                (λ r' e'. final_cleanup-Keeps inp r'.1 e')))

      entered-Keeps :
          (o : Option Req) (s : State W)
          → Within sh s
          → Keeps last sh (elim o [
            | none ↦ final_cleanup call inp s
            | some req ↦ start call inp s (reset_req call req)
          ])
      entered-Keeps none s h = final_cleanup-Keeps inp s h
      entered-Keeps (some req) s h = start-Keeps s _ h

      -- A run of `fra_p_req_handle_new` that returns leaves the hooks and the urls as they are, and the
      -- endpoints but for their pools, and adds at most one request, if none is free.
      pub handle_new-Keeps :
          (s : State W)
          → Within sh s
          → (s.empty_req ≡ [] → s.all_count + 1 ≤ sh.1)
          → Keeps last sh (handle_new call inp s)
      unfolding handle_new
      handle_new-Keeps s h room =
          let (rc, w) = glob_hook_execute (call 0) s.glob_hooks req_incoming s.world in
          let t : State W = record s { world = w } in
          keep_if last sh inp.pollin _ _
            (keep_rc last sh rc _ _
              (keep_then last last sh (get_req call inp.request t) _
                (get_req-Keeps inp.request t h room) (λ r e. entered-Keeps r.0 r.1 e))
              (final_cleanup-Keeps inp t h))
            (final_cleanup-Keeps inp s h)
