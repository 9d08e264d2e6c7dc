-- ===== src/Req/Succeeds.antt =====
-- Hooks that return 0, and the end of a request from its callback on, in src/req.c.
use fast_cgi_rest_api.Common.{
  ℕ, ◌≡◌, ap, subst, false, none, some, List, [], ◌∷◌, ◌++◌, append_assoc, get_elem?, Rc, ok, Run,
  done, ◌>>=◌, ◌==◌,
}
use fast_cgi_rest_api.Common.Sys.{Floats}
use fast_cgi_rest_api.Hook.{
  Table, HookType, req_incoming, req_new, glob_hook_execute, req_hook_execute,
}
use fast_cgi_rest_api.End.{End}
use fast_cgi_rest_api.Req.State.{
  Req, Event, handled, finish, State, Input, emit, hooks_of, run_hooks,
}
use fast_cgi_rest_api.Req.Handle.{run_callback, complete}
use fast_cgi_rest_api.Req.Settled.{IsInFlight, Ends}
use fast_cgi_rest_api.Req.Answer.{moved, complete-Ends}

module _ ⦃fl : Floats⦄ {W : Type 0} (call : ℕ → ℕ → W → Rc × W) where
  -- The hooks return 0: the global ones, those for a request without an endpoint, and those of the
  -- endpoint `e`.
  pub record Obliges (glob_hooks req_hooks : Table) (e : End) : Type 0 where
    pub incoming : (w : W) → (glob_hook_execute (call 0) glob_hooks req_incoming w).0 ≡ ok
    pub before :
        (addr : ℕ) (type : HookType) (w : W)
        → (req_hook_execute (call addr) req_hooks none type w).0 ≡ ok
    pub new :
        (addr : ℕ) (w : W)
        → (req_hook_execute (call addr) req_hooks (some e.hooks) req_new w).0 ≡ ok

  -- The run ends with code 0, and changes nothing but what callbacks write.
  unfoldable pub Succeeds : State W → Run (Rc × State W) → Type 0
  Succeeds s run = (w : W) × (run ≡ done (ok, record s { world = w }))

  pub before-Succeeds :
      (s : State W) (req : Req) (type : HookType) (e : End)
      → Obliges s.glob_hooks s.req_hooks e
      → req.endpoint ≡ none
      → Succeeds s (run_hooks call s req type)
  unfolding run_hooks hooks_of Succeeds
  before-Succeeds s req type e o n =
      let r = req_hook_execute (call req.addr) s.req_hooks none type s.world in
      (
        r.1,
        rw (run_hooks, n)
            (ap (λ k. done (k, record s { world = r.1 })) (o.before req.addr type s.world)),
      )

  pub new-Succeeds :
      (s : State W) (req : Req) (i : ℕ) (e : End)
      → ((w : W) → (req_hook_execute (call req.addr) s.req_hooks (some e.hooks) req_new w).0 ≡ ok)
      → req.endpoint ≡ some i
      → get_elem? s.ends i ≡ some e
      → Succeeds s (run_hooks call s req req_new)
  unfolding run_hooks hooks_of Succeeds
  new-Succeeds s req i e o n at =
      let r = req_hook_execute (call req.addr) s.req_hooks (some e.hooks) req_new s.world in
      (
        r.1,
        rw (run_hooks, n, hooks_of, at) (ap (λ k. done (k, record s { world = r.1 })) (o s.world)),
      )

  pub Ends-same :
      {es es' : List Event} {run : Run (Rc × State W)}
      → es ≡ es'
      → Ends call ok es run
      → Ends call ok es' run
  Ends-same {es} {es'} {run} e h = subst (λ x. Ends call ok x run) e h

  pub after_new-Ends :
      (inp : Input) (s : State W) (req : Req) (i : ℕ) (e : End)
      → IsInFlight s req
      → get_elem? s.ends i ≡ some e
      → (e.callback == 0) ≡ false
      → Ends call ok
          (s.events ++ handled i ∷ finish ∷ [])
          (run_callback call s req i >>= λ u. complete call inp u req)
  unfolding run_callback
  after_new-Ends inp s req i e h at c =
      let w = (call req.addr e.callback s.world).1 in
      let t = emit (handled i) (record s { world = w }) in
      rw (run_callback, at, c)
        (Ends-same (append_assoc s.events (handled i ∷ []) (finish ∷ []))
          (complete-Ends call inp t req (moved call s req t.events w h)))
