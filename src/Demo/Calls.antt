-- ===== src/Demo/Calls.antt =====
-- Each call of `main` of src/example/fra-server-example.c, with memory.
use fast_cgi_rest_api.Common.{
  ℕ, ◌-◌, ◌<◌, ◌+◌, suc, ◌<◌, ◌≡◌, sym, Rc, refl, subst, true, false, ◌&&◌, Bool-cases, none, some,
  List, [], ◌∷◌, ◌++◌, arith, inl, inr, or_else, length, get_elem?, set, ok, done, ◌>>=◌, ◌==◌,
  if◌then◌else◌,
}
use fast_cgi_rest_api.Common.Sys.{Bytes, Strings, Floats}
use fast_cgi_rest_api.Ht.Chain.{eq_key}
use fast_cgi_rest_api.Ht.Fresh.{new-IsFresh}
use fast_cgi_rest_api.Hook.{
  Hook, Hooks, Table, req_incoming, req_new, insert, new_table, hook_reg, glob_hook_reg,
  req_hook_reg,
}
use fast_cgi_rest_api.End
use fast_cgi_rest_api.End.{End, empty_pool, end_hooks}
use fast_cgi_rest_api.Url
use fast_cgi_rest_api.Url.Routes.{IsTable, route}
use fast_cgi_rest_api.Url.FirstRoute.{add-Adds}
use fast_cgi_rest_api.Var
use fast_cgi_rest_api.Var.Layout.{entry_of, IsStore}
use fast_cgi_rest_api.Var.Lookup.{HasBuckets, var_get-reg}
use fast_cgi_rest_api.Demo.{
  buhu_of, Memory, App, Call, req_hook, glob_hook, req_var, new_end, set_callback, add_url,
  run_call, run_calls, get, buhu, int,
}

-- Every allocation succeeds, and so does the mutex.
abbrev pub enough : Memory
enough = record {
  hook = true;
  lock = ok;
  unlock = ok;
  var = record { type = true; key = true; grown = true };
  end = record { e = true; mutex = ok; ht = true; buck = true; hooks = true };
  url = record { verb = true; node = true; key = true; grown = true };
}

module _ ⦃fl : Floats⦄ where
  abbrev pub hook : ℕ → fl.F → Hook fl.F
  hook cb priority = record { callback = cb; priority = priority }

  pub irreflexive : (a : fl.F) → fl.lt a a ≡ false
  irreflexive a = elim (Bool-cases (fl.lt a a)) [ inl e ↦ fl.lt_asymm a a e | inr e ↦ e ]

  module _ ⦃st : Strings⦄ where
    pub run_calls-cons :
        (k : ℕ) (c : Call) (calls : List Call) (a b : App)
        → run_call enough c a ≡ done (ok, b)
        → run_calls (λ n. enough) k (c ∷ calls) a ≡ run_calls (λ n. enough) (suc k) calls b
    unfolding run_calls
    run_calls-cons k c calls a b e = rw (run_calls, e)

    pub glob_hook-done :
        (a : App) (l : Hooks) (cb : ℕ) (priority : fl.F)
        → (cb == 0) ≡ false
        → a.glob_hooks ≡ l ∷ []
        → run_call enough (glob_hook req_incoming cb priority) a
          ≡ done (ok, record a { glob_hooks = insert (hook cb priority) l ∷ [] })
    unfolding run_call glob_hook_reg hook_reg
    glob_hook-done a l cb priority c e = simp (run_call, glob_hook_reg, hook_reg, c, e) refl

    -- A table of hooks for all requests with those of `FRA_REQ_NEW` alone.
    abbrev pub new_hooks : Hooks → Table
    new_hooks l = [] ∷ [] ∷ [] ∷ [] ∷ l ∷ [] ∷ [] ∷ []

    pub req_hook-done :
        (a : App) (l : Hooks) (cb : ℕ) (priority : fl.F)
        → (cb == 0) ≡ false
        → a.req_hooks ≡ new_hooks l
        → run_call enough (req_hook req_new cb priority) a
          ≡ done (ok, record a { req_hooks = new_hooks (insert (hook cb priority) l) })
    unfolding run_call req_hook_reg hook_reg
    req_hook-done a l cb priority c e = simp (run_call, req_hook_reg, hook_reg, c, e) refl

    -- A new endpoint, whatever its map of variables.
    abbrev pub fresh : Var.VarMap → ℕ → End
    fresh vars cb = record {
      store = record { map = vars; size = 0 };
      pool = empty_pool;
      hooks = new_hooks [];
      callback = cb;
    }

    pub new_end-done :
        (a : App)
        → (vars : Var.VarMap) × (run_call enough (new_end 20) a
            ≡ done (ok, record a { ends = a.ends ++ fresh vars 0 ∷ [] }))
    unfolding run_call End.new Var.ht_get new_table
    new_end-done a =
        let (vars, made, _) = new-IsFresh 20 Var.var_set (omega arith) in
        (vars, rw (run_call, End.new, Var.ht_get, made) refl)

    -- The variable is found at the start of the block of a request.
    abbrev pub Finds : Var.VarMap → Type 0
    Finds vars =
        (r : Var.Request)
        → HasBuckets r.endpoint
        → buhu_of vars r ≡ done (some (r.req_store + 0, int))

    pub req_var-done :
        (a : App)
        → IsStore a.glob_vars []
        → (s : Var.Store) × (run_call enough (req_var buhu int 4) a
            ≡ done (ok, record a { glob_vars = s }))
          × Finds s.map
    unfolding run_call Var.req_var_reg buhu_of
    req_var-done a h =
        let no_request : Var.Request = record {
          req_store = 0;
          endpoint = none;
          endpoint_store = none;
        } in
        let small : a.glob_vars.size < Var.size_max - 4 =
          subst (λ n. n < Var.size_max - 4) h.laid (omega arith) in
        let registered = λ (r : Var.Request) (buckets : HasBuckets r.endpoint).
          var_get-reg a.glob_vars [] buhu int int 4 r h (unfold entry_of in refl) (λ e. cc) small
            buckets in
        let (x, run, (code, _, _)) = registered no_request tt in
        (
          x.1,
          rw (run_call, Var.req_var_reg, run, ◌>>=◌, code) refl,
          λ r buckets.
              let (y, ran, (_, found, _)) = registered r buckets in
              let same : y ≡ x = cc (ran, run) in
              subst (λ n. buhu_of x.1.map r ≡ done (some (r.req_store + n, int))) (sym h.laid)
                (subst
                  (λ (z : Rc × Var.Store).
                    buhu_of z.1.map r ≡ done (some (r.req_store + a.glob_vars.size, int)))
                  same found),
        )

    pub add_url-done :
        (a : App) (i : ℕ) (url : Bytes)
        → IsTable a.urls
        → length url < 512
        → (t : Url.Table) × (run_call enough (add_url i get url) a
            ≡ done (ok, record a { urls = t }))
          × IsTable t
          × ((v u : Bytes)
              → route t v u
                ≡ or_else
                    (route a.urls v u)
                    (if eq_key url u && eq_key get v then some i else none))
    unfolding run_call
    add_url-done a i url h short =
        let ((rc, t), run, adds) = add-Adds a.urls i get url h short in
        (t, rw (run_call, run, ◌>>=◌, adds.code) refl, adds.table, adds.routes)

    pub set_callback-done :
        (a : App) (i cb : ℕ) (e : End)
        → get_elem? a.ends i ≡ some e
        → run_call enough (set_callback i cb) a
          ≡ done (ok, record a { ends = set a.ends i (record e { callback = cb }) })
    unfolding run_call End.callback_set
    set_callback-done a i cb e at = rw (run_call, at) refl
