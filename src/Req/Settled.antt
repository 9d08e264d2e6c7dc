-- ===== src/Req/Settled.antt =====
-- Between two requests: no request and no block is in use. The handling of a request, whatever its
-- outcome, comes back to such a state.
use fast_cgi_rest_api.Common.{
  ℕ, zero, suc, ◌+◌, ◌<◌, ◌≡◌, refl, ap, sym, subst, ◌∙◌, Option, none, some, List, [], ◌∷◌, arith,
  ◌⊎◌, inl, inr, length, get_elem?, get_elem?-set_self, set, Rc, ok, Run, done, ℕ_discrete,
  get_elem?-set_ne, ◌==◌, ◌≢◌, if◌then◌else◌,
}
use fast_cgi_rest_api.Common.Growth.{over_growth_never}
use fast_cgi_rest_api.Common.Sys.{Floats}
use fast_cgi_rest_api.Hook.{Table, HookType, req_hook_execute}
use fast_cgi_rest_api.End.{End, Pool}
use fast_cgi_rest_api.End.Ownership.{IsOwned, store_maybe_free-IsOwned}
use fast_cgi_rest_api.Req.State.{Req, Event, State, hooks_of, run_hooks}
use fast_cgi_rest_api.Req.Handle.{
  update_end, give_back, store_maybe_free, req_release, req_maybe_free,
}

-- No endpoint lends a block, or the endpoint `i` lends the block `a`.
abbrev pub no_block : ℕ → List ℕ
no_block j = []

abbrev pub one_block : ℕ → ℕ → ℕ → List ℕ
one_block i a j = if i == j then a ∷ [] else []

pub self_block : (i a : ℕ) → one_block i a i ≡ a ∷ []
self_block i a = ground arith

pub get_elem?-lt :
    {A : Type 0} (xs : List A) (i : ℕ) (x : A) → get_elem? xs i ≡ some x → i < length xs
get_elem?-lt [] i x e = cc
get_elem?-lt (y ∷ xs) zero x e = omega arith
get_elem?-lt (y ∷ xs) (suc i) x e = omega (arith, get_elem?-lt xs i x e)

module _ ⦃fl : Floats⦄ {W : Type 0} where
  -- The pools of the endpoints: all blocks are free, but for those that `held` names.
  abbrev pub Holds : (ℕ → List ℕ) → State W → Type 0
  Holds held s = (i : ℕ) (e : End) → get_elem? s.ends i ≡ some e → IsOwned e.pool (held i)

  -- `out` requests are being handled; the counters are exact.
  pub record IsCounted (out : ℕ) (s : State W) : Type 0 where
    pub empties : s.empty_count ≡ length s.empty_req
    pub all : s.all_count ≡ s.empty_count + out

  -- No request is being handled.
  pub record IsSettled (s : State W) : Type 0 where
    pub counted : IsCounted 0 s
    pub pools : Holds no_block s

  -- A request is being handled: it has no endpoint yet, or one with a block.
  pub record IsInFlight (s : State W) (req : Req) : Type 0 where
    pub counted : IsCounted 1 s
    pub lent :
        ((req.endpoint ≡ none) × Holds no_block s)
        ⊎ ((i a : ℕ) × (e : End) × (req.endpoint ≡ some i)
            × (req.endpoint_store ≡ some a)
            × (get_elem? s.ends i ≡ some e)
            × Holds (one_block i a) s)

  -- A new pool for the endpoint `i` changes what that endpoint lends, and no other.
  pub Holds-set :
      (before after : ℕ → List ℕ) (s : State W) (i : ℕ) (e : End) (p : Pool) (w : W)
      → get_elem? s.ends i ≡ some e
      → Holds before s
      → ((j : ℕ) → i ≢ j → before j ≡ after j)
      → IsOwned p (after i)
      → Holds after (record s { ends = set s.ends i (record e { pool = p }); world = w })
  Holds-set before after s i e p w at h same owned j d found = elim (ℕ_discrete i j) [
    | yes eq ↦
        let e' : End = record e { pool = p } in
        let here : get_elem? (set s.ends i e') i ≡ some d =
          subst (λ k. get_elem? (set s.ends i e') k ≡ some d) (sym eq) found in
        let there : get_elem? (set s.ends i e') i ≡ some e' =
          get_elem?-set_self s.ends i e' (get_elem?-lt s.ends i e at) in
        let same_end : e' ≡ d = cc in
        subst (λ (x : End). IsOwned x.pool (after j)) same_end
          (subst (λ k. IsOwned p (after k)) eq owned)
    | no ne ↦ rw (← same j ne) (h j d (sym (get_elem?-set_ne s.ends i j _ ne) ∙ found))
  ]

  lent-IsOwned :
      (s : State W) (i a : ℕ) (e : End)
      → get_elem? s.ends i ≡ some e
      → Holds (one_block i a) s
      → IsOwned e.pool (a ∷ [])
  lent-IsOwned s i a e at pools = subst (IsOwned e.pool) (self_block i a) (pools i e at)

  -- The request `req` stays as it was, and the state but for the world.
  abbrev pub OnlyWorld : State W → Run (Rc × State W) → Type 0
  OnlyWorld s run = (rc : Rc) × (w : W) × (run ≡ done (rc, record s { world = w }))

  module _ (call : ℕ → ℕ → W → Rc × W) where
    hooks_of-done :
        (s : State W) (endpoint : Option ℕ)
        → (endpoint ≡ none)
          ⊎ ((i : ℕ) × (e : End) × (endpoint ≡ some i) × (get_elem? s.ends i ≡ some e))
        → (hooks : Option Table) × (hooks_of s endpoint ≡ done hooks)
    unfolding hooks_of
    hooks_of-done s endpoint (inl e) = (none, rw e)
    hooks_of-done s endpoint (inr (i, d, e, at)) = (some d.hooks, rw (e, hooks_of, at))

    pub run_hooks-OnlyWorld :
        (s : State W) (req : Req) (type : HookType)
        → (req.endpoint ≡ none)
          ⊎ ((i : ℕ) × (e : End) × (req.endpoint ≡ some i) × (get_elem? s.ends i ≡ some e))
        → OnlyWorld s (run_hooks call s req type)
    unfolding run_hooks
    run_hooks-OnlyWorld s req type h =
        let (hooks, e) = hooks_of-done s req.endpoint h in
        let r = req_hook_execute (call req.addr) s.req_hooks hooks type s.world in (r.0, r.1, rw e)

    -- What `req_maybe_free` starts from once the block of the request is given back.
    pub record GivenBack (s : State W) (run : Run (Rc × Req × State W)) : Type 0 where
      pub req_after : Req
      pub after : State W
      pub run_done : run ≡ done (ok, req_after, after)
      pub counted : IsCounted 1 after
      pub pools : Holds no_block after
      pub events : after.events ≡ s.events

    give_back-GivenBack :
        (s : State W) (req : Req) (i a : ℕ) (e : End)
        → IsCounted 1 s
        → req.endpoint_store ≡ some a
        → get_elem? s.ends i ≡ some e
        → Holds (one_block i a) s
        → GivenBack s (give_back call (some i) s req)
    unfolding give_back
    give_back-GivenBack s req i a e c held at pools =
        let owned : IsOwned e.pool (a ∷ []) = lent-IsOwned s i a e at pools in
        let (r, run, (code, owned', _, _, _)) =
          store_maybe_free-IsOwned (call req.addr) s.req_hooks e.hooks e.pool a s.world [] owned in
        let u : Rc × Req × State W = update_end call s i e req r in
        record {
          req_after = u.1;
          after = u.2;
          run_done = rw (at, give_back, held, run) (ap (λ k. done (k, u.1, u.2)) code);
          counted = record { empties = c.empties; all = c.all };
          pools =
              Holds-set (one_block i a) no_block s i e r.1.0 r.2 at pools (λ j n. ground arith)
                owned';
          events = refl;
        }

    pub store_maybe_free-GivenBack :
        (s : State W) (req : Req) → IsInFlight s req → GivenBack s (store_maybe_free call s req)
    unfolding store_maybe_free give_back
    store_maybe_free-GivenBack s req h = elim h.lent [
      | inl (e, pools) ↦ record {
        req_after = req;
        after = s;
        run_done = rw e;
        counted = h.counted;
        pools = pools;
        events = refl;
      }
      | inr (i, a, d, e, held, at, pools) ↦
          subst (λ o. GivenBack s (give_back call o s req)) (sym e)
            (give_back-GivenBack s req i a d h.counted held at pools)
    ]

    -- A run that ends with no request in use, and has appended `events`.
    pub record Ends (rc : Rc) (before : List Event) (run : Run (Rc × State W)) : Type 0 where
      pub after : State W
      pub run_done : run ≡ done (rc, after)
      pub settled : IsSettled after
      pub events : after.events ≡ before

    req_release-Ends :
        (s : State W) (req : Req)
        → IsCounted 1 s
        → Holds no_block s
        → Ends ok s.events (req_release call s req)
    unfolding req_release
    req_release-Ends s req c pools = record {
      after = record s { empty_req = req ∷ s.empty_req; empty_count = s.empty_count + 1 };
      run_done = rw (over_growth_never s.all_count s.empty_count);
      settled = record {
        counted = record { empties = ground (arith, c.empties); all = ground (arith, c.all) };
        pools = pools;
      };
      events = refl;
    }

    -- `req_maybe_free` succeeds for every request being handled: its block and the request itself are
    -- kept for later use, and nothing is freed.
    pub req_maybe_free-Ends :
        (s : State W) (req : Req) → IsInFlight s req → Ends ok s.events (req_maybe_free call s req)
    unfolding req_maybe_free
    req_maybe_free-Ends s req h =
        let g = store_maybe_free-GivenBack s req h in
        let r = req_release-Ends g.after g.req_after g.counted g.pools in
        record {
          after = r.after;
          run_done = rw (g.run_done, r.run_done);
          settled = r.settled;
          events = r.events ∙ g.events;
        }
