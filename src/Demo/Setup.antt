-- ===== src/Demo/Setup.antt =====
-- What the calls of `main` of src/example/fra-server-example.c set up, with memory.
use fast_cgi_rest_api.Common.{
  ℕ, suc, ◌<◌, ◌≡◌, refl, ap, ◌∙◌, ◌&&◌, Bool-cases, Option, none, some, List, [], ◌∷◌, ◌++◌, arith,
  inl, inr, or_else, length, get_elem?, set, Rc, ok, Run, done, Returns, if◌then◌else◌,
}
use fast_cgi_rest_api.Common.Sys.{Bytes, Strings, Floats}
use fast_cgi_rest_api.Ht.Chain.{eq_key}
use fast_cgi_rest_api.Hook.{Hooks, req_incoming, req_new, insert, insert_from}
use fast_cgi_rest_api.End.{End}
use fast_cgi_rest_api.Url
use fast_cgi_rest_api.Url.Routes.{IsTable, route}
use fast_cgi_rest_api.Url.FirstRoute.{first_route}
use fast_cgi_rest_api.Var
use fast_cgi_rest_api.Var.Layout.{IsStore}
use fast_cgi_rest_api.Demo.{
  Program, App, Call, req_hook, glob_hook, req_var, new_end, set_callback, add_url, run_calls,
  main_calls, get, say_hello_url, say_bye_url, buhu, int,
}
use fast_cgi_rest_api.Demo.Calls.{
  Finds, enough, hook, irreflexive, run_calls-cons, glob_hook-done, new_hooks, req_hook-done, fresh,
  new_end-done, req_var-done, add_url-done, set_callback-done,
}

-- The endpoints of the example, by their places.
abbrev pub routes : List (ℕ × Bytes × Bytes)
routes = (0, get, say_hello_url) ∷ (1, get, say_bye_url) ∷ []

module _ ⦃st : Strings⦄ ⦃fl : Floats⦄ (p : Program) where
  abbrev pub glob_list : Hooks
  glob_list =
      hook p.hello_world4 p.f543_3
      ∷ hook p.hello_world3 p.f5343_3
      ∷ hook p.hello_world5 p.f5343_3
      ∷ []

  abbrev pub req_list : Hooks
  req_list = hook p.hello_world2 p.f0_099 ∷ hook p.hello_world p.f0_1 ∷ []

  -- What `main` sets up: the hooks in the order in which they run, an endpoint for each url, and no
  -- hook of an endpoint.
  pub record IsSetUp (a : App) : Type 0 where
    pub glob_hooks : a.glob_hooks ≡ glob_list ∷ []
    pub req_hooks : a.req_hooks ≡ new_hooks req_list
    pub table : IsTable a.urls
    pub routes : (v u : Bytes) → route a.urls v u ≡ first_route routes v u
    pub finds : Finds a.glob_vars.map
    pub ends :
        (vars vars' : Var.VarMap) × (a.ends ≡ fresh vars p.handle ∷ fresh vars' p.say_bye ∷ [])

  glob_order :
      insert
        (hook p.hello_world5 p.f5343_3)
        (insert (hook p.hello_world4 p.f543_3) (insert (hook p.hello_world3 p.f5343_3) []))
      ≡ glob_list
  unfolding insert insert_from
  glob_order =
      let later = fl.lt_asymm p.f543_3 p.f5343_3 p.lt_thousands in
      simp (p.lt_thousands, later, irreflexive p.f5343_3) refl

  req_order :
      insert (hook p.hello_world2 p.f0_099) (insert (hook p.hello_world p.f0_1) []) ≡ req_list
  unfolding insert insert_from
  req_order = rw p.lt_tenth refl

  both_routes :
      (o : Option ℕ) (v u : Bytes)
      → o ≡ none
      → or_else
          (or_else o (if eq_key say_hello_url u && eq_key get v then some 0 else none))
          (if eq_key say_bye_url u && eq_key get v then some 1 else none)
        ≡ first_route routes v u
  unfolding first_route
  both_routes o v u e = elim (Bool-cases (eq_key say_hello_url u && eq_key get v)) [
    | inl first ↦ rw (e, first, first_route) refl
    | inr other ↦ rw (e, other, first_route) refl
  ]

  -- The five registrations of hooks, whatever comes after them.
  hooks-done :
      (a : App) (calls : List Call)
      → a.glob_hooks ≡ [] ∷ []
      → a.req_hooks ≡ new_hooks []
      → run_calls
          (λ n. enough)
          0
          (req_hook req_new p.hello_world p.f0_1
            ∷ glob_hook req_incoming p.hello_world3 p.f5343_3
            ∷ glob_hook req_incoming p.hello_world4 p.f543_3
            ∷ req_hook req_new p.hello_world2 p.f0_099
            ∷ glob_hook req_incoming p.hello_world5 p.f5343_3
            ∷ calls)
          a
        ≡ run_calls
            (λ n. enough)
            5
            calls
            (record a { glob_hooks = glob_list ∷ []; req_hooks = new_hooks req_list })
  hooks-done a calls globs reqs =
      let l1 = insert (hook p.hello_world p.f0_1) [] in
      let a1 : App = record a { req_hooks = new_hooks l1 } in
      let g2 = insert (hook p.hello_world3 p.f5343_3) [] in
      let a2 : App = record a1 { glob_hooks = g2 ∷ [] } in
      let g3 = insert (hook p.hello_world4 p.f543_3) g2 in
      let a3 : App = record a2 { glob_hooks = g3 ∷ [] } in
      let l4 = insert (hook p.hello_world2 p.f0_099) l1 in
      let a4 : App = record a3 { req_hooks = new_hooks l4 } in
      let e1 = req_hook-done a [] p.hello_world p.f0_1 p.hello_world_set reqs in
      let e2 = glob_hook-done a1 [] p.hello_world3 p.f5343_3 p.hello_world3_set globs in
      let e3 = glob_hook-done a2 g2 p.hello_world4 p.f543_3 p.hello_world4_set refl in
      let e4 = req_hook-done a3 l1 p.hello_world2 p.f0_099 p.hello_world2_set refl in
      let e5 = glob_hook-done a4 g3 p.hello_world5 p.f5343_3 p.hello_world5_set refl in
      let result : Hooks → Hooks → Run (Rc × App) = λ g r.
        run_calls (λ n. enough) 5 calls
          (record a { glob_hooks = g ∷ []; req_hooks = new_hooks r }) in
      run_calls-cons 0 _ _ a a1 e1
      ∙ run_calls-cons 1 _ _ a1 a2 e2
      ∙ run_calls-cons 2 _ _ a2 a3 e3
      ∙ run_calls-cons 3 _ _ a3 a4 e4
      ∙ run_calls-cons 4 _ _ a4 _ e5
      ∙ ap (λ g. result g (insert (hook p.hello_world2 p.f0_099) l1)) glob_order
      ∙ ap (result glob_list) req_order

  -- The three calls for an endpoint: it comes behind those of `front`.
  endpoint-done :
      (k : ℕ) (a : App) (calls : List Call) (front : List End) (i cb : ℕ) (url : Bytes)
      → ((e : End) → get_elem? (front ++ e ∷ []) i ≡ some e)
      → ((e d : End) → set (front ++ e ∷ []) i d ≡ front ++ d ∷ [])
      → a.ends ≡ front
      → IsTable a.urls
      → length url < 512
      → (vars : Var.VarMap) × (t : Url.Table) × (run_calls
            (λ n. enough)
            k
            (new_end 20 ∷ set_callback i cb ∷ add_url i get url ∷ calls)
            a
          ≡ run_calls
              (λ n. enough)
              (suc (suc (suc k)))
              calls
              (record a { urls = t; ends = front ++ fresh vars cb ∷ [] }))
        × IsTable t
        × ((v u : Bytes)
            → route t v u
              ≡ or_else (route a.urls v u) (if eq_key url u && eq_key get v then some i else none))
  endpoint-done k a calls front i cb url at put ends table short =
      let (vars, e1) = new_end-done a in
      let a1 : App = record a { ends = a.ends ++ fresh vars 0 ∷ [] } in
      let a2 : App = record a { ends = front ++ fresh vars cb ∷ [] } in
      let e2 =
        set_callback-done a1 i cb (fresh vars 0)
          (ap (λ l. get_elem? (l ++ fresh vars 0 ∷ []) i) ends ∙ at (fresh vars 0)) in
      let same : set (a.ends ++ fresh vars 0 ∷ []) i (fresh vars cb) ≡ front ++ fresh vars cb ∷ [] =
        ap (λ l. set (l ++ fresh vars 0 ∷ []) i (fresh vars cb)) ends
        ∙ put (fresh vars 0) (fresh vars cb) in
      let (t, e3, table', routes) = add_url-done a2 i url table short in
      (
        vars,
        t,
        run_calls-cons k _ _ a a1 e1
            ∙ run_calls-cons (suc k) _ _ a1 a2
                (e2 ∙ ap (λ l. done (ok, record a { ends = l })) same)
            ∙ run_calls-cons (suc (suc k)) _ calls a2 (record a2 { urls = t }) e3,
        table',
        routes,
      )

  -- The calls of `main` from tables without hooks, urls and variables.
  pub run_calls-IsSetUp :
      (a : App)
      → a.glob_hooks ≡ [] ∷ []
      → a.req_hooks ≡ new_hooks []
      → IsStore a.glob_vars []
      → IsTable a.urls
      → ((v u : Bytes) → route a.urls v u ≡ none)
      → a.ends ≡ []
      → Returns (run_calls (λ n. enough) 0 (main_calls p) a) λ r. (r.0 ≡ ok) × IsSetUp r.1
  unfolding run_calls
  run_calls-IsSetUp a globs reqs store table none_yet no_ends =
      let a5 : App = record a { glob_hooks = glob_list ∷ []; req_hooks = new_hooks req_list } in
      let second : List Call =
        new_end 20 ∷ set_callback 1 p.say_bye ∷ add_url 1 get say_bye_url ∷ [] in
      let first : List Call =
        new_end 20 ∷ set_callback 0 p.handle ∷ add_url 0 get say_hello_url ∷ second in
      let (s, e6, found) = req_var-done a5 store in
      let a6 : App = record a5 { glob_vars = s } in
      let (vars, t, e7, table', routes) =
        endpoint-done 6 a6 second [] 0 p.handle say_hello_url (λ e. refl) (λ e d. refl) no_ends
          table (omega arith) in
      let a9 : App = record a6 { urls = t; ends = fresh vars p.handle ∷ [] } in
      let (vars', t', e8, table'', routes') =
        endpoint-done 9 a9 [] (fresh vars p.handle ∷ []) 1 p.say_bye say_bye_url (λ e. refl)
          (λ e d. refl) refl table' (omega arith) in
      (
        _,
        hooks-done a (req_var buhu int 4 ∷ first) globs reqs
            ∙ run_calls-cons 5 (req_var buhu int 4) first a5 a6 e6
            ∙ e7
            ∙ e8,
        (
          refl,
          record {
            glob_hooks = refl;
            req_hooks = refl;
            table = table'';
            routes = λ v u. rw (routes' v u, routes v u) (both_routes _ v u (none_yet v u));
            finds = found;
            ends = (vars, vars', refl);
          },
        ),
      )
