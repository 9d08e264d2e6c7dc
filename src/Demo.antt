-- ===== src/Demo.antt =====
-- src/example/fra-server-example.c: a server with two endpoints and hooks of two types. What its
-- callbacks print is left out; the files that its output goes to, too.
pub mod Calls
pub mod Setup
pub mod Main
pub mod Loop
pub mod Obliges
pub mod Answers
use fast_cgi_rest_api.Common.{
  ℕ, suc, Bool, true, false, ◌≡◌, Option, none, some, List, [], ◌∷◌, ◌++◌, Rc, ok, failed, Run,
  done, fault, ◌>>=◌, get_elem?, length, ◌+◌, set, ◌==◌,
}
use fast_cgi_rest_api.Common.Sys.{Bytes, Strings, Floats}
use fast_cgi_rest_api.End
use fast_cgi_rest_api.End.{End}
use fast_cgi_rest_api.Glob
use fast_cgi_rest_api.Glob.{Lib, Inits, glob_init}
use fast_cgi_rest_api.Hook.{
  Table, GlobHookType, HookType, req_incoming, req_new, glob_hook_reg, req_hook_reg,
}
use fast_cgi_rest_api.Url
use fast_cgi_rest_api.Var
use fast_cgi_rest_api.Poll
use fast_cgi_rest_api.Poll.{Entry}
use fast_cgi_rest_api.Poll.Loop.{Round, Outcome, glob_poll}
use fast_cgi_rest_api.Server.{callback}
use fast_cgi_rest_api.Req.State.{State, Input}

-- The addresses of the callbacks, none of which is NULL, and the constants `0.1f`, `5343.3f`, `543.3f`
-- and `0.099f`, in their order.
pub record Program ⦃fl : Floats⦄ : Type 0 where
  pub hello_world : ℕ
  pub hello_world2 : ℕ
  pub hello_world3 : ℕ
  pub hello_world4 : ℕ
  pub hello_world5 : ℕ
  pub handle : ℕ
  pub say_bye : ℕ
  pub handle_new : ℕ
  pub hello_world_set : (hello_world == 0) ≡ false
  pub hello_world2_set : (hello_world2 == 0) ≡ false
  pub hello_world3_set : (hello_world3 == 0) ≡ false
  pub hello_world4_set : (hello_world4 == 0) ≡ false
  pub hello_world5_set : (hello_world5 == 0) ≡ false
  pub handle_set : (handle == 0) ≡ false
  pub say_bye_set : (say_bye == 0) ≡ false
  pub f0_1 : fl.F
  pub f5343_3 : fl.F
  pub f543_3 : fl.F
  pub f0_099 : fl.F
  pub lt_tenth : fl.lt f0_099 f0_1 ≡ true
  pub lt_thousands : fl.lt f543_3 f5343_3 ≡ true

-- What the allocations and the mutex return in one of the calls of `main`.
pub record Memory : Type 0 where
  pub hook : Bool
  pub lock : Rc
  pub unlock : Rc
  pub var : Var.Allocs
  pub end : End.Allocs
  pub url : Url.Allocs

-- `GET`, `/say/hello`, `/say/bye`, `buhu` and `int`
abbrev pub get : Bytes
get = 71 ∷ 69 ∷ 84 ∷ []

abbrev pub say_hello_url : Bytes
say_hello_url = 47 ∷ 115 ∷ 97 ∷ 121 ∷ 47 ∷ 104 ∷ 101 ∷ 108 ∷ 108 ∷ 111 ∷ []

abbrev pub say_bye_url : Bytes
say_bye_url = 47 ∷ 115 ∷ 97 ∷ 121 ∷ 47 ∷ 98 ∷ 121 ∷ 101 ∷ []

abbrev pub buhu : Bytes
buhu = 98 ∷ 117 ∷ 104 ∷ 117 ∷ []

abbrev pub int : Bytes
int = 105 ∷ 110 ∷ 116 ∷ []

module _ ⦃fl : Floats⦄ where
  -- The tables that `fra_glob_init` makes, and the endpoints of `main` in their order.
  pub record App : Type 0 where
    pub glob_hooks : Table
    pub req_hooks : Table
    pub glob_vars : Var.Store
    pub urls : Url.Table
    pub ends : List End

  -- `fra( req, "buhu", int )` of the callbacks: the address that is read or written, with the type of the
  -- variable. The macro takes the sizes of the two literals.
  unfoldable pub buhu_of : ⦃st : Strings⦄ → Var.VarMap → Var.Request → Run (Option (ℕ × Bytes))
  buhu_of vars r =
      Var.var_get (some vars) r (buhu ++ 0 ∷ []) (length buhu + 1) (Var.expect int (length int + 1))

  -- The calls of `main` after `fra_glob_init`; an endpoint is its place.
  pub data Call : Type 0 where
    req_hook : HookType → ℕ → fl.F → Call
    glob_hook : GlobHookType → ℕ → fl.F → Call
    req_var : Bytes → Bytes → ℕ → Call
    new_end : ℕ → Call
    set_callback : ℕ → ℕ → Call
    add_url : ℕ → Bytes → Bytes → Call

  -- `fra_end_new( var_count )`, which is checked for NULL.
  abbrev pub push_end : App → Option End → Run (Rc × App)
  push_end a none = done (failed, a)
  push_end a (some e) = done (ok, record a { ends = a.ends ++ e ∷ [] })

  abbrev pub set_end : App → ℕ → Rc × End → Run (Rc × App)
  set_end a i (rc, e) = done (rc, record a { ends = set a.ends i e })

  module _ ⦃st : Strings⦄ where
    unfoldable pub run_call : Memory → Call → App → Run (Rc × App)
    run_call m (req_hook type cb priority) a =
        let (rc, t) = req_hook_reg m.hook a.req_hooks type cb priority in
        done (rc, record a { req_hooks = t })
    run_call m (glob_hook type cb priority) a =
        let (rc, t) = glob_hook_reg m.hook a.glob_hooks type cb priority in
        done (rc, record a { glob_hooks = t })
    run_call m (req_var name type size) a =
        Var.req_var_reg m.lock m.unlock m.var a.glob_vars name type size >>= λ r.
        done (r.0, record a { glob_vars = r.1 })
    run_call m (new_end var_count) a = push_end a (End.new m.end var_count)
    run_call m (set_callback i cb) a = elim (get_elem? a.ends i) [
      | none ↦ fault
      | some e ↦ set_end a i (End.callback_set e cb)
    ]
    run_call m (add_url i verb url) a =
        Url.add m.url a.urls i verb url >>= λ r. done (r.0, record a { urls = r.1 })

    -- Each call is checked: `main` ends at the first that fails. `mem` is the memory in each of them.
    unfoldable pub run_calls : (ℕ → Memory) → ℕ → List Call → App → Run (Rc × App)
    unfolding run_call
    run_calls mem k [] a = done (ok, a)
    run_calls mem k (c ∷ calls) a = do
      (rc, a') ← run_call (mem k) c a
      let rest = run_calls mem (suc k) calls a'
      elim rc [ ok ↦ rest | failed ↦ done (failed, a') ]

  module _ (p : Program) where
    abbrev pub main_calls : List Call
    main_calls =
        req_hook req_new p.hello_world p.f0_1
        ∷ glob_hook req_incoming p.hello_world3 p.f5343_3
        ∷ glob_hook req_incoming p.hello_world4 p.f543_3
        ∷ req_hook req_new p.hello_world2 p.f0_099
        ∷ glob_hook req_incoming p.hello_world5 p.f5343_3
        ∷ req_var buhu int 4
        ∷ new_end 20
        ∷ set_callback 0 p.handle
        ∷ add_url 0 get say_hello_url
        ∷ new_end 20
        ∷ set_callback 1 p.say_bye
        ∷ add_url 1 get say_bye_url
        ∷ []

  -- What `fra_glob_init` made; the size of the block of variables starts at 0.
  abbrev pub tables : Lib → Option App
  tables l = elim l.hooks [
    | none ↦ none
    | some hooks ↦ elim l.vars [
      | none ↦ none
      | some map ↦ elim l.urls [
        | none ↦ none
        | some urls ↦ some (record {
          glob_hooks = hooks.0;
          req_hooks = hooks.1;
          glob_vars = record { map = map; size = 0 };
          urls = urls;
          ends = [];
        })
      ]
    ]
  ]

  -- `main` up to `fra_glob_poll`: the code of the last call, and what was made, if that is there.
  unfoldable pub main :
      ⦃st : Strings⦄ → Inits → (ℕ → Memory) → Program → Lib → Run (Rc × Option (Poll.State × App))
  main m mem p lib = do
    (rc, l) ← glob_init m p.handle_new lib
    elim rc [
      | failed ↦ done (failed, none)
      | ok ↦ elim (tables l) [
        | none ↦ fault
        | some a ↦ run_calls mem 0 (main_calls p) a >>= λ r. done (r.0, some (l.poll, r.1))
      ]
    ]

  -- What `fra_p_req_handle_new` works on then.
  abbrev pub serving : {W : Type 0} → App → W → State W
  serving a w = record {
    glob_hooks = a.glob_hooks;
    req_hooks = a.req_hooks;
    urls = a.urls;
    ends = a.ends;
    empty_req = [];
    empty_count = 0;
    all_count = 0;
    events = [];
    world = w;
  }

  -- No callback of the example calls `fra_glob_poll_stop`, and none registers a descriptor.
  abbrev pub never : {W : Type 0} → State W → Bool
  never s = false

  -- The handler is the one callback.
  abbrev pub no_others : {W : Type 0} → Entry → ℕ → W → W
  no_others e revents w = w

  -- The whole of `main`: how its call of `fra_glob_poll` ends, unless `main` returns -1 before.
  module _ ⦃st : Strings⦄ {W : Type 0} (call : ℕ → ℕ → W → Rc × W) (outside : State W → Input) where
    unfoldable pub server :
        Inits
        → (ℕ → Memory)
        → Program
        → (lock : Rc) → List Round
        → W
        → Lib
        → Run (Option (Outcome (Run (State W))))
    unfolding main
    server m mem p lock rounds w lib = do
      (rc, made) ← main m mem p lib
      elim rc [
        | failed ↦ done none
        | ok ↦ elim made [
          | none ↦ fault
          | some (poll, a) ↦
              glob_poll (callback call outside p.handle_new no_others never) lock rounds poll
                (done (serving a w))
              >>= λ o. done (some o)
        ]
      ]
