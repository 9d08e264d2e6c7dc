-- ===== src/Req/Kept.antt =====
-- The parts of the state of a request that its handling in src/req.c leaves as they are, and what it
-- takes to show that.
use fast_cgi_rest_api.Common.{
  arith, ◌≤◌, Bool, List, Option, Option-cases, Rc, Run, [], ap, done, failed, false, fault,
  get_elem?, if◌then◌else◌, inl, inr, map, none, ok, refl, set, some, subst, suc, sym, true, zero,
  ℕ, ◌>>=◌, ◌∙◌, ◌∷◌, ◌≡◌,
}
use fast_cgi_rest_api.Common.Growth.{over_growth}
use fast_cgi_rest_api.Common.Sys.{Floats}
use fast_cgi_rest_api.Hook.{HookType, Table, req_free}
use fast_cgi_rest_api.End
use fast_cgi_rest_api.End.{End, Pool, empty_pool}
use fast_cgi_rest_api.Url
use fast_cgi_rest_api.Req.State.{Req, State, hooks_of, run_hooks}
use fast_cgi_rest_api.Req.Handle.{
  give_back, req_maybe_free, req_release, store_maybe_free, store_set, update_end,
}

-- An endpoint without its pool.
abbrev pub plan : ⦃fl : Floats⦄ → End → End
plan e = record e { pool = empty_pool }

module _ ⦃fl : Floats⦄ where
  pub map-set_pool :
      (ends : List End) (i : ℕ) (e : End) (p : Pool)
      → get_elem? ends i ≡ some e
      → map plan (set ends i (record e { pool = p })) ≡ map plan ends
  map-set_pool [] i e p h = refl
  map-set_pool (d ∷ ends) zero e p h =
      let same : d ≡ e = cc in ap (λ x. plan x ∷ map plan ends) (sym same)
  map-set_pool (d ∷ ends) (suc i) e p h = ap (◌∷◌ (plan d)) (map-set_pool ends i e p h)

  pub get_elem?-plan :
      (before after : List End) (i : ℕ) (e : End)
      → map plan after ≡ map plan before
      → get_elem? after i ≡ some e
      → (d : End) × (get_elem? before i ≡ some d) × (plan e ≡ plan d)
  get_elem?-plan [] [] i e h at = cc
  get_elem?-plan [] (a ∷ after) i e h at = cc
  get_elem?-plan (b ∷ before) [] i e h at = cc
  get_elem?-plan (b ∷ before) (a ∷ after) zero e h at =
      let same : a ≡ e = cc in
      let first : plan a ≡ plan b = cc in (b, refl, sym (ap plan same) ∙ first)
  get_elem?-plan (b ∷ before) (a ∷ after) (suc i) e h at =
      let rest : map plan after ≡ map plan before = cc in get_elem?-plan before after i e rest at

  -- What stays.
  abbrev pub Shape : Type 0
  Shape = Table × Table × Url.Table × List End

  abbrev pub Limits : Type 0
  Limits = Shape × ℕ

module _ ⦃fl : Floats⦄ {W : Type 0} where
  abbrev pub shape : State W → Shape
  shape s = (s.glob_hooks, s.req_hooks, s.urls, map plan s.ends)

  -- What stays, and how many requests there are at most.
  abbrev pub Within : Limits → State W → Type 0
  Within sh s = (shape s ≡ sh.0) × (s.all_count ≤ sh.1)

  -- If the run returns, the state in its result is within the limits.
  unfoldable pub Keeps : {A : Type 0} → (A → State W) → Limits → Run A → Type 0
  Keeps out sh (done a) = Within sh (out a)
  Keeps out sh fault = Unit {0}

  pub keep :
      {A : Type 0} (out : A → State W) (sh : Limits) (a : A)
      → Within sh (out a)
      → Keeps out sh (done a)
  unfolding Keeps
  keep out sh a h = h

  pub kept :
      {A : Type 0} (out : A → State W) (sh : Limits) (run : Run A) (a : A)
      → Keeps out sh run
      → run ≡ done a
      → Within sh (out a)
  unfolding Keeps
  kept out sh run a h e = subst (Keeps out sh) e h

  pub keep_fault : {A : Type 0} (out : A → State W) (sh : Limits) → Keeps out sh fault
  unfolding Keeps
  keep_fault out sh = tt

  pub keep_into :
      {A B : Type 0} (out : A → State W) (out' : B → State W) (sh sh' : Limits) (run : Run A)
      (next : A → Run B)
      → Keeps out sh run
      → ((a : A) → Within sh (out a) → Keeps out' sh' (next a))
      → Keeps out' sh' (run >>= next)
  unfolding Keeps
  keep_into out out' sh sh' (done a) next h f = f a h
  keep_into out out' sh sh' fault next h f = tt

  pub keep_then :
      {A B : Type 0} (out : A → State W) (out' : B → State W) (sh : Limits) (run : Run A)
      (next : A → Run B)
      → Keeps out sh run
      → ((a : A) → Within sh (out a) → Keeps out' sh (next a))
      → Keeps out' sh (run >>= next)
  keep_then out out' sh run next h f = keep_into out out' sh sh run next h f

  pub keep_rc :
      {A : Type 0} (out : A → State W) (sh : Limits) (rc : Rc) (a b : Run A)
      → Keeps out sh a
      → Keeps out sh b
      → Keeps out sh (elim rc [ ok ↦ a | failed ↦ b ])
  keep_rc out sh ok a b h k = h
  keep_rc out sh failed a b h k = k

  pub keep_if :
      {A : Type 0} (out : A → State W) (sh : Limits) (c : Bool) (a b : Run A)
      → Keeps out sh a
      → Keeps out sh b
      → Keeps out sh (if c then a else b)
  keep_if out sh true a b h k = h
  keep_if out sh false a b h k = k

  -- What does not change the state.
  pub keep_same :
      {A : Type 0} (s : State W) (sh : Limits) (run : Run A) → Within sh s → Keeps (λ a. s) sh run
  unfolding Keeps
  keep_same s sh (done a) h = h
  keep_same s sh fault h = tt

  -- Where the state is in the results.
  abbrev pub last : {A : Type 0} → A × State W → State W
  last r = r.1

  abbrev pub after_req : Rc × Req × State W → State W
  after_req r = r.2

  module _ (call : ℕ → ℕ → W → Rc × W) (sh : Limits) where
    pub run_hooks-Keeps :
        (s : State W) (req : Req) (type : HookType)
        → Within sh s
        → Keeps last sh (run_hooks call s req type)
    unfolding run_hooks
    run_hooks-Keeps s req type h =
        keep_then (λ a. s) last sh (hooks_of s req.endpoint) _ (keep_same s sh _ h)
          (λ hooks e. keep last sh _ h)

    pub store_set-Keeps :
        (block : Option ℕ) (s : State W) (req : Req) (i : ℕ)
        → Within sh s
        → Keeps after_req sh (store_set call block s req i)
    unfolding store_set
    store_set-Keeps block s req i h = elim (Option-cases (get_elem? s.ends i)) [
      | inl missing ↦ rw (store_set, missing) (keep_fault after_req sh)
      | inr (e, at) ↦
          rw (store_set, at)
            (keep after_req sh _ (
              ap (λ l. (s.glob_hooks, s.req_hooks, s.urls, l)) (map-set_pool s.ends i e _ at) ∙ h.0,
              h.1,
            ))
    ]

    give_back-Keeps :
        (endpoint : Option ℕ) (s : State W) (req : Req)
        → Within sh s
        → Keeps after_req sh (give_back call endpoint s req)
    unfolding give_back
    give_back-Keeps none s req h = keep after_req sh _ h
    give_back-Keeps (some i) s req h = elim (Option-cases (get_elem? s.ends i)) [
      | inl missing ↦ rw (give_back, missing) (keep_fault after_req sh)
      | inr (e, at) ↦
          rw (give_back, at)
            (keep_then (λ a. s) after_req sh
              (End.store_maybe_free (call req.addr) s.req_hooks e.hooks (e.pool, req.endpoint_store)
                s.world)
              (λ r. done (update_end call s i e req r)) (keep_same s sh _ h)
              (λ r k. keep after_req sh (update_end call s i e req r) (
                ap (λ l. (s.glob_hooks, s.req_hooks, s.urls, l)) (map-set_pool s.ends i e _ at)
                    ∙ h.0,
                h.1,
              )))
    ]

    pub req_maybe_free-Keeps :
        (s : State W) (req : Req) → Within sh s → Keeps last sh (req_maybe_free call s req)
    unfolding req_maybe_free store_maybe_free req_release
    req_maybe_free-Keeps s req h =
        keep_then after_req last sh (give_back call req.endpoint s req) _
          (give_back-Keeps req.endpoint s req h)
          (λ r e.
            keep_rc last sh r.0 _ _
              (keep_if last sh (over_growth r.2.all_count r.2.empty_count) _ _
                (keep_then last last sh (run_hooks call r.2 r.1 req_free) _
                  (run_hooks-Keeps r.2 r.1 req_free e)
                  (λ r' e'.
                    keep_rc last sh r'.0 _ _ (keep last sh _ (e'.0, omega (arith, e'.1)))
                      (keep last sh _ e')))
                (keep last sh _ e))
              (keep last sh _ e))
