-- ===== src/Req/Answer.antt =====
-- What a web server sees of the handling of a request, and the ends of `fra_p_req_handle_new`.
use fast_cgi_rest_api.Common.{
  ℕ, ◌≡◌, refl, ap, subst, ◌∙◌, true, false, none, some, List, [], ◌∷◌, ◌++◌, append_assoc, ◌⊎◌,
  inl, inr, get_elem?, Rc, ok, failed, Run,
}
use fast_cgi_rest_api.Common.Blocks.{is_live}
use fast_cgi_rest_api.Common.Sys.{Floats}
use fast_cgi_rest_api.Hook.{Table, HookType, end_store_created}
use fast_cgi_rest_api.End.{End, end_hooks}
use fast_cgi_rest_api.Url
use fast_cgi_rest_api.Url.Routes.{IsTable}
use fast_cgi_rest_api.Req.State.{
  Req, Event, init_request, accepted, go_away, finish, turned_away, handled, State, Input, emit,
  run_hooks,
}
use fast_cgi_rest_api.Req.Handle.{final_cleanup, fcgx_cleanup, complete, req_cleanup}
use fast_cgi_rest_api.Req.Settled.{
  IsSettled, IsInFlight, OnlyWorld, run_hooks-OnlyWorld, Ends, req_maybe_free-Ends,
}

-- The answer to a request that was accepted: the header to go away, or what the callback of its
-- endpoint did, if there is one.
pub data Served : Rc → List Event → Type 0 where
  cleaned : Served failed (go_away ∷ finish ∷ [])
  with_callback : (i : ℕ) → Served ok (handled i ∷ finish ∷ [])
  without_callback : Served ok (finish ∷ [])

-- The answer to a request.
pub data Answer : Rc → List Event → Type 0 where
  -- before the request was initialised
  refused : Answer failed (turned_away ∷ [])
  served : {rc : Rc} {es : List Event} → Served rc es → Answer rc (init_request ∷ accepted ∷ es)

module _ ⦃fl : Floats⦄ {W : Type 0} (call : ℕ → ℕ → W → Rc × W) where
  -- A run that comes back to a settled state, and does what `P` allows.
  pub record EndsWith (P : Rc → List Event → Type 0) (before : List Event)
      (run : Run (Rc × State W)) : Type 0 where
    pub rc : Rc
    pub new : List Event
    pub allowed : P rc new
    pub ends : Ends call rc (before ++ new) run

  pub EndsWith-same :
      {P : Rc → List Event → Type 0} {es es' : List Event} {run : Run (Rc × State W)}
      → es ≡ es'
      → EndsWith P es run
      → EndsWith P es' run
  EndsWith-same {P} {es} {es'} {run} e h = subst (λ x. EndsWith P x run) e h

  -- What the handling of a request relies on. The routes lead to endpoints, `malloc` returns a block
  -- that is not in use, the hooks for a new block return 0, and the memory that `malloc` returns for a
  -- request has no endpoint in it.
  pub record IsReady (inp : Input) (req_hooks : Table) (urls : Url.Table) (ends : List End)
      : Type 0 where
    pub table : IsTable urls
    pub block : ℕ
    pub memory : inp.block ≡ some block
    pub fresh : (i : ℕ) (e : End) → get_elem? ends i ≡ some e → is_live block e.pool.live ≡ false
    pub created :
        (i : ℕ) (e : End) (addr : ℕ) (w : W)
        → get_elem? ends i ≡ some e
        → (end_hooks (call addr) req_hooks e.hooks end_store_created w).0 ≡ ok
    pub request : (r : Req) → inp.request ≡ some r → r.endpoint ≡ none

  pub moved :
      (s : State W) (req : Req) (es : List Event) (w : W)
      → IsInFlight s req
      → IsInFlight (record s { events = es; world = w }) req
  moved s req es w h = record {
    counted = record { empties = h.counted.empties; all = h.counted.all };
    lent = h.lent;
  }

  -- The endpoint of a request is one of the list.
  at_endpoint :
      (s : State W) (req : Req)
      → IsInFlight s req
      → (req.endpoint ≡ none)
        ⊎ ((i : ℕ) × (e : End) × (req.endpoint ≡ some i) × (get_elem? s.ends i ≡ some e))
  at_endpoint s req h = elim h.lent [
    | inl (n, _) ↦ inl n
    | inr (i, a, e, n, held, at, _) ↦ inr (i, e, n, at)
  ]

  pub hooks-OnlyWorld :
      (s : State W) (req : Req) (type : HookType)
      → IsInFlight s req
      → OnlyWorld s (run_hooks call s req type)
  hooks-OnlyWorld s req type h = run_hooks-OnlyWorld call s req type (at_endpoint s req h)

  pub final_cleanup-Ends :
      (inp : Input) (s : State W)
      → inp.turned_accepts ≡ true
      → IsSettled s
      → Ends call failed (s.events ++ turned_away ∷ []) (final_cleanup call inp s)
  unfolding final_cleanup
  final_cleanup-Ends inp s turned h = record {
    after = emit turned_away s;
    run_done = rw (final_cleanup, turned) refl;
    settled = record {
      counted = record { empties = h.counted.empties; all = h.counted.all };
      pools = h.pools;
    };
    events = refl;
  }

  pub fcgx_cleanup-Ends :
      (inp : Input) (s : State W) (req : Req)
      → inp.accepts ≡ true
      → IsInFlight s req
      → Ends call failed (s.events ++ go_away ∷ finish ∷ []) (fcgx_cleanup call inp s req)
  unfolding fcgx_cleanup
  fcgx_cleanup-Ends inp s req accepts h =
      let e =
        req_maybe_free-Ends call (emit finish (emit go_away s)) req
          (moved s req (emit finish (emit go_away s)).events s.world h) in
      record {
        after = e.after;
        run_done = rw (fcgx_cleanup, accepts, e.run_done) refl;
        settled = e.settled;
        events = e.events ∙ append_assoc s.events (go_away ∷ []) (finish ∷ []);
      }

  pub req_cleanup-Ends :
      (inp : Input) (s : State W) (req : Req)
      → inp.turned_accepts ≡ true
      → IsInFlight s req
      → Ends call failed (s.events ++ turned_away ∷ []) (req_cleanup call inp s req)
  unfolding req_cleanup
  req_cleanup-Ends inp s req turned h =
      let e = req_maybe_free-Ends call s req h in
      let f = final_cleanup-Ends inp e.after turned e.settled in
      record {
        after = f.after;
        run_done = rw (e.run_done, f.run_done);
        settled = f.settled;
        events = f.events ∙ ap (λ es. es ++ turned_away ∷ []) e.events;
      }

  pub complete-Ends :
      (inp : Input) (s : State W) (req : Req)
      → IsInFlight s req
      → Ends call ok (s.events ++ finish ∷ []) (complete call inp s req)
  unfolding complete
  complete-Ends inp s req h =
      let e =
        req_maybe_free-Ends call (emit finish s) req
          (moved s req (emit finish s).events s.world h) in
      record { after = e.after; run_done = rw e.run_done; settled = e.settled; events = e.events }
