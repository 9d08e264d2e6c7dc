-- ===== src/Req/Handle.antt =====
-- `get_req`, `req_maybe_free` and `fra_p_req_handle_new` of src/req.c. `fra_p_pthreads` is 0, so
-- `fra_p_lock` and `fra_p_unlock` do nothing; the error path of `get_req` does not ask for that and unlocks
-- a mutex that is not locked, which is undefined (the library is built without NO_PTHREADS). Req.Locked has
-- both functions with their mutex. A stream of a connection that was not accepted is NULL, and printing to it
-- is undefined.
use fast_cgi_rest_api.Common.{
  ℕ, ◌+◌, ◌-◌, true, false, Option, none, some, [], ◌∷◌, Rc, ok, failed, Run, done, fault, ◌>>=◌,
  get_elem?, set, if◌then◌else◌, ◌==◌,
}
use fast_cgi_rest_api.Common.Growth.{over_growth}
use fast_cgi_rest_api.Common.Sys.{Bytes, Strings, Floats}
use fast_cgi_rest_api.Hook.{
  req_incoming, req_created, req_before_fcgx, req_before_endpoint, req_new, req_free,
  glob_hook_execute,
}
use fast_cgi_rest_api.End
use fast_cgi_rest_api.End.{End, Pool}
use fast_cgi_rest_api.Url
use fast_cgi_rest_api.Req.Params.{Tag, text, Urls, max_verb_length, set_param, set_url}
use fast_cgi_rest_api.Req.State.{
  Req, init_request, accepted, go_away, finish, turned_away, handled, State, Input, emit, run_hooks,
}

module _ ⦃fl : Floats⦄ {W : Type 0} (call : ℕ → ℕ → W → Rc × W) where
  -- What `get_req` chooses: the first free request, or a new one, for which the hooks run before its
  -- fields are set.
  unfoldable pub take_req : Option Req → State W → Run (Option Req × State W)
  take_req block s = elim s.empty_req [
    | req ∷ rest ↦ done (some req, record s { empty_req = rest; empty_count = s.empty_count - 1 })
    | [] ↦ elim block [
      | none ↦ done (none, s)
      | some req ↦ do
        (rc, s') ← run_hooks call s req req_created
        elim rc [
          | ok ↦ done (some req, record s' { all_count = s'.all_count + 1 })
          | failed ↦ done (none, s')
        ]
    ]
  ]

  -- `get_req`, whose label `unlock_cleanup` is not for a mutex that is not locked.
  unfoldable pub get_req : Option Req → State W → Run (Option Req × State W)
  unfolding take_req
  get_req block s = do
    (chosen, s') ← take_req block s
    elim chosen [ none ↦ fault | some req ↦ done (some req, s') ]

  -- An endpoint's pool after a call of src/end.c, and the request and the world after it.
  abbrev pub update_end : State W → ℕ → End → Req → Rc × End.PoolReq × W → Rc × Req × State W
  update_end s i e req (rc, (pool, store), w) = (
    rc,
    record req { endpoint_store = store },
    record s { ends = set s.ends i (record e { pool = pool }); world = w },
  )

  -- `fra_p_end_store_set` at a request.
  unfoldable pub store_set : Option ℕ → State W → Req → ℕ → Run (Rc × Req × State W)
  store_set block s req i = elim (get_elem? s.ends i) [
    | none ↦ fault
    | some e ↦ done (
        update_end s i e req (
          End.store_set (call req.addr) s.req_hooks e.hooks block (e.pool, req.endpoint_store)
            s.world))
  ]

  -- `fra_p_end_store_maybe_free` at a request, which does nothing for one with no endpoint.
  unfoldable pub give_back : Option ℕ → State W → Req → Run (Rc × Req × State W)
  give_back none s req = done (ok, req, s)
  give_back (some i) s req = elim (get_elem? s.ends i) [
    | none ↦ fault
    | some e ↦ do
      r ←
          End.store_maybe_free (call req.addr) s.req_hooks e.hooks (e.pool, req.endpoint_store)
            s.world
      done (update_end s i e req r)
  ]

  unfoldable pub store_maybe_free : State W → Req → Run (Rc × Req × State W)
  store_maybe_free s req = give_back req.endpoint s req

  -- What `req_maybe_free` does with the request itself.
  unfoldable pub req_release : State W → Req → Run (Rc × State W)
  req_release s req =
      if over_growth s.all_count s.empty_count
      then (do
        (rc, s') ← run_hooks call s req req_free
        elim rc [
          | ok ↦ done (ok, record s' { all_count = s'.all_count - 1 })
          | failed ↦ done (failed, s')
        ])
      else done (ok, record s { empty_req = req ∷ s.empty_req; empty_count = s.empty_count + 1 })

  unfoldable pub req_maybe_free : State W → Req → Run (Rc × State W)
  req_maybe_free s req = do
    (rc, req', s') ← store_maybe_free s req
    elim rc [ ok ↦ req_release s' req' | failed ↦ done (failed, s') ]

  -- The labels of `fra_p_req_handle_new`: `final_cleanup` with `rc_ex` 1, which is `exit_request`, then
  -- `req_cleanup`, and `fcgx_cleanup`, which sets `rc_ex` to 0. `exit_request` does not read what its
  -- `FCGX_Accept_r` returns, and prints.
  unfoldable pub final_cleanup : Input → State W → Run (Rc × State W)
  final_cleanup inp s = if inp.turned_accepts then done (failed, emit turned_away s) else fault

  unfoldable pub req_cleanup : Input → State W → Req → Run (Rc × State W)
  req_cleanup inp s req = req_maybe_free s req >>= λ r. final_cleanup inp r.1

  unfoldable pub fcgx_cleanup : Input → State W → Req → Run (Rc × State W)
  fcgx_cleanup inp s req =
      if inp.accepts
      then (req_maybe_free (emit finish (emit go_away s)) req >>= λ r. done (failed, r.1))
      else fault

  -- The end of a request that is handled.
  unfoldable pub complete : Input → State W → Req → Run (Rc × State W)
  complete inp s req = do
    (rc, s') ← req_maybe_free (emit finish s) req
    elim rc [ ok ↦ done (ok, s') | failed ↦ final_cleanup inp s' ]

  -- `if( req->endpoint->callback ) req->endpoint->callback( req )`, whose result is not read.
  unfoldable pub run_callback : State W → Req → ℕ → Run (State W)
  run_callback s req i = elim (get_elem? s.ends i) [
    | none ↦ fault
    | some e ↦
        if e.callback == 0
        then done s
        else done (emit (handled i) (record s { world = (call req.addr e.callback s.world).1 }))
  ]

  -- From `fra_p_end_store_set` on, for a request with the endpoint `i`.
  unfoldable pub serve : Input → State W → Req → ℕ → Run (Rc × State W)
  serve inp s req i = do
    (rc, req', s') ← store_set inp.block s req i
    elim rc [
      | failed ↦ fcgx_cleanup inp s' req'
      | ok ↦ do
        (rc', t) ← run_hooks call s' req' req_new
        elim rc' [
          | failed ↦ fcgx_cleanup inp t req'
          | ok ↦ do u ← run_callback t req' i; complete inp u req'
        ]
    ]

  -- The choice of the endpoint, by the verb and the url without its query.
  unfoldable pub route : ⦃st : Strings⦄ → Input → State W → Req → Bytes → Bytes → Run (Rc × State W)
  route inp s req verb base = elim req.endpoint [
    | some i ↦ serve inp s req i
    | none ↦ do
      e ← Url.to_endpoint s.urls verb base
      elim e [
        | none ↦ fcgx_cleanup inp s req
        | some i ↦ serve inp s (record req { endpoint = some i }) i
      ]
  ]

  -- From the parameters of an accepted request on.
  unfoldable pub dispatch :
      ⦃st : Strings⦄ → Input → State W → Req → Option Tag → Option Urls → Run (Rc × State W)
  dispatch inp s req none urls = fcgx_cleanup inp s req
  dispatch inp s req (some verb) none = fcgx_cleanup inp s req
  dispatch inp s req (some verb) (some u) = do
    (rc, t) ← run_hooks call s req req_before_endpoint
    elim rc [ failed ↦ fcgx_cleanup inp t req | ok ↦ route inp t req (text verb) (text u.base_url) ]

  -- `FCGX_InitRequest` and `FCGX_Accept_r`, and what follows.
  unfoldable pub accept : ⦃st : Strings⦄ → Input → State W → Req → Run (Rc × State W)
  accept inp s req =
      let s' = emit init_request s in
      if inp.accepts
      then dispatch inp (emit accepted s') (record req { fcgx_defined = true })
          (set_param inp.method max_verb_length) (set_url inp.uri)
      else fcgx_cleanup inp s' req

  -- `reset_req`
  abbrev pub reset_req : Req → Req
  reset_req req = record req { fcgx_defined = false; endpoint = none }

  -- From `reset_req` on.
  unfoldable pub start : ⦃st : Strings⦄ → Input → State W → Req → Run (Rc × State W)
  start inp s req = do
    (rc, t) ← run_hooks call s req req_before_fcgx
    elim rc [ failed ↦ req_cleanup inp t req | ok ↦ accept inp t req ]

  -- `fra_p_req_handle_new`. A callback of the global hooks gets no request.
  unfoldable pub handle_new : ⦃st : Strings⦄ → Input → State W → Run (Rc × State W)
  handle_new inp s =
      let (rc, w) = glob_hook_execute (call 0) s.glob_hooks req_incoming s.world in
      let s' : State W = record s { world = w } in
      let entered : Run (Rc × State W) = get_req inp.request s' >>= λ r. elim r.0 [
        | none ↦ final_cleanup inp r.1
        | some req ↦ start inp r.1 (reset_req req)
      ] in
      if inp.pollin
      then (elim rc [ ok ↦ entered | failed ↦ final_cleanup inp s' ])
      else final_cleanup inp s
