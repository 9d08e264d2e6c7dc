-- ===== src/Demo/Main.antt =====
-- `main` of src/example/fra-server-example.c from its start to `fra_glob_poll`, and the server that then
-- runs.
use fast_cgi_rest_api.Common.{
  ℕ, zero, suc, ◌≡◌, refl, sym, ap, subst, ◌∙◌, true, false, ◌&&◌, Bool-cases, none, some, [], ◌∷◌,
  arith, ◌⊎◌, inl, inr, get_elem?, Rc, ok, done, Returns,
}
use fast_cgi_rest_api.Common.Sys.{Bytes, Strings, Floats}
use fast_cgi_rest_api.Ht.Chain.{eq_key}
use fast_cgi_rest_api.Ht.Fresh.{new-IsFresh}
use fast_cgi_rest_api.Hook.{
  Hook, Hooks, Table, req_incoming, req_new, end_store_created, insert, insert_from, new_table,
  hook_count, hook_reg, glob_hook_reg, req_hook_reg, req_hook_execute, end_hook_execute,
  hook_execute, run_hooks,
}
use fast_cgi_rest_api.End.{End, end_hooks}
use fast_cgi_rest_api.End.Ownership.{IsOwned, empty_pool-IsOwned}
use fast_cgi_rest_api.Url
use fast_cgi_rest_api.Url.FirstRoute.{first_route}
use fast_cgi_rest_api.Var
use fast_cgi_rest_api.Var.Layout.{IsStore}
use fast_cgi_rest_api.Req.State.{State, Input}
use fast_cgi_rest_api.Server.Sequence.{IsServing}
use fast_cgi_rest_api.Demo.{Program, App, get, say_hello_url, serving}
use fast_cgi_rest_api.Glob.{
  Lib, Inits, glob_init, init_hooks, init_vars, init_req, init_urls, req_init,
}
use fast_cgi_rest_api.Hook
use fast_cgi_rest_api.Poll.Descriptors.{starting}
use fast_cgi_rest_api.Url.Startup.{init-IsTable}
use fast_cgi_rest_api.Demo.{main}
use fast_cgi_rest_api.Server.Turns.{listening, poll_init-listening}
use fast_cgi_rest_api.Ht.{new}
use fast_cgi_rest_api.Ht.Fresh.{IsFresh}
use fast_cgi_rest_api.Var.Layout.{entry_of}
use fast_cgi_rest_api.Demo.Calls.{enough, new_hooks, fresh}
use fast_cgi_rest_api.Demo.Setup.{routes, req_list, IsSetUp, run_calls-IsSetUp}

-- Before `fra_glob_init`, and allocations, locks and `FCGX_Init` that all succeed in it.
module _ ⦃fl : Floats⦄ where
  abbrev pub unstarted : Lib
  unstarted = record { poll = starting; hooks = none; vars = none; empty_req = []; urls = none }

  abbrev pub all_well : Inits
  all_well = record {
    lock = ok;
    unlocked = ok;
    poll = true;
    callbacks = true;
    fd_add = record { lock = ok; poll = true; callbacks = true };
    glob_hooks = true;
    req_hooks = true;
    vars = true;
    vars_buck = true;
    fcgx = ok;
    urls = true;
    urls_buck = true;
  }

module _ ⦃st : Strings⦄ ⦃fl : Floats⦄ (p : Program) where
  new_vars-IsStore :
      (vars : Var.VarMap) → IsFresh Var.var_set vars → IsStore (record { map = vars; size = 0 }) []
  unfolding entry_of
  new_vars-IsStore vars h = record {
    width = h.width;
    setter = λ a. rw h.setter refl;
    laid = refl;
    bounded = omega arith;
    reads = h.reads;
  }

  abbrev started : Var.VarMap → Url.Table → Lib
  started vars t = record {
    poll = listening p.handle_new;
    hooks = some ([] ∷ [], new_hooks []);
    vars = some vars;
    empty_req = [];
    urls = some t;
  }

  glob_init-started :
      (vars : Var.VarMap) (t : Url.Table)
      → new true true 400 Var.var_set ≡ some vars
      → Url.init false 0 true true ≡ (ok, some t)
      → glob_init all_well p.handle_new unstarted ≡ done (ok, started vars t)
  unfolding glob_init init_hooks init_vars init_req init_urls req_init Var.init Var.ht_get Hook.init
      new_table
  glob_init-started vars t made urls =
      simp
        (
          glob_init, poll_init-listening, init_hooks, Hook.init, init_vars, Var.init, Var.ht_get,
          made, init_req, init_urls, urls,
        )
        refl

  -- One of two endpoints.
  at_two : (d d' : End) (i : ℕ) (e : End) → get_elem? (d ∷ d' ∷ []) i ≡ some e → (d ≡ e) ⊎ (d' ≡ e)
  at_two d d' zero e h = inl cc
  at_two d d' (suc zero) e h = inr cc
  at_two d d' (suc (suc i)) e h = cc

  leads_two :
      (d d' : End) (v u : Bytes) (i : ℕ)
      → first_route routes v u ≡ some i
      → (e : End) × (get_elem? (d ∷ d' ∷ []) i ≡ some e)
  unfolding first_route
  leads_two d d' v u i h = elim (Bool-cases (eq_key say_hello_url u && eq_key get v)) [
    | inl first ↦
        let same : 0 ≡ i = ground (arith, h, first) in
        subst (λ k. (e : End) × (get_elem? (d ∷ d' ∷ []) k ≡ some e)) same (d, refl)
    | inr other ↦
        let same : 1 ≡ i = ground (arith, h, other) in
        subst (λ k. (e : End) × (get_elem? (d ∷ d' ∷ []) k ≡ some e)) same (d', refl)
  ]

  fresh_created :
      {W : Type 0} (call : ℕ → W → Rc × W) (vars : Var.VarMap) (cb : ℕ) (l : Hooks) (w : W)
      → (end_hooks call (new_hooks l) (fresh vars cb).hooks end_store_created w).0 ≡ ok
  unfolding req_hook_execute end_hook_execute hook_execute run_hooks
  fresh_created call vars cb l w = refl

  module _ {W : Type 0} (call : ℕ → ℕ → W → Rc × W) (outside : State W → Input) where
    -- All blocks of an endpoint are free, and its hooks for new ones return 0.
    abbrev Made : End → Type 0
    Made e =
        IsOwned e.pool []
        × ((addr : ℕ) (w : W)
            → (end_hooks (call addr) (new_hooks (req_list p)) e.hooks end_store_created w).0 ≡ ok)

    fresh-Made : (vars : Var.VarMap) (cb : ℕ) → Made (fresh vars cb)
    fresh-Made vars cb =
        (empty_pool-IsOwned, λ addr w. fresh_created (call addr) vars cb (req_list p) w)

    ends-Made : (a : App) (i : ℕ) (e : End) → IsSetUp p a → get_elem? a.ends i ≡ some e → Made e
    ends-Made a i e h at =
        let (vars, vars', ends) = h.ends in
        elim (at_two _ _ i e (ap (λ l. get_elem? l i) (sym ends) ∙ at)) [
          | inl first ↦ subst Made first (fresh-Made vars p.handle)
          | inr second ↦ subst Made second (fresh-Made vars' p.say_bye)
        ]

    IsSetUp-IsServing : (a : App) (w : W) → IsSetUp p a → IsServing call outside (serving a w)
    IsSetUp-IsServing a w h =
        let (vars, vars', ends) = h.ends in
        record {
          settled = record {
            counted = record { empties = refl; all = refl };
            pools = λ i e at. (ends-Made a i e h at).0;
          };
          wired = record {
            table = h.table;
            created = λ i e addr v at. rw h.req_hooks ((ends-Made a i e h at).1 addr v);
            leads = λ v u i found. rw ends (leads_two _ _ v u i (sym (h.routes v u) ∙ found));
          };
        }

  -- The example server with memory and working locks: `main` gets through all its calls up to
  -- `fra_glob_poll`. Then a connection is led to the first endpoint for `GET` and `/say/hello`, to the
  -- second for `GET` and `/say/bye`, and else to none. `hello_world4` runs before `hello_world3` and
  -- `hello_world5`, and `hello_world2` before `hello_world`. `fra( req, "buhu", int )` finds its variable
  -- at the start of the block of each request, if the map of the request's endpoint has buckets. Whatever
  -- the callbacks return and whatever comes from outside, the state is one from which any number of requests can be
  -- handled.
  pub main-IsServing : Returns (main all_well (λ n. enough) p unstarted) λ r.
      (r.0 ≡ ok)
      × (a : App) × (r.1 ≡ some (listening p.handle_new, a))
      × IsSetUp p a
      × ((W : Type 0) (call : ℕ → ℕ → W → Rc × W) (outside : State W → Input) (w : W)
          → IsServing call outside (serving a w))
  unfolding main
  main-IsServing =
      let (vars, made, fresh_vars) = new-IsFresh 400 Var.var_set (omega arith) in
      let (t, urls, table, none_yet) = init-IsTable 0 in
      let a : App = record {
        glob_hooks = [] ∷ [];
        req_hooks = new_hooks [];
        glob_vars = record { map = vars; size = 0 };
        urls = t;
        ends = [];
      } in
      let (r, run, (code, set_up)) =
        run_calls-IsSetUp p a refl refl (new_vars-IsStore vars fresh_vars) table none_yet refl in
      (
        (r.0, some (listening p.handle_new, r.1)),
        rw (main, glob_init-started vars t made urls, run) refl,
        (code, r.1, refl, set_up, λ W call outside w. IsSetUp-IsServing call outside r.1 w set_up),
      )
