-- ===== src/Glob.antt =====
-- src/glob.c: the start and the stop of the library, with those of the pool of requests in src/req.c.
pub mod Restart
use fast_cgi_rest_api.Common.{
  ℕ, Bool, true, false, Option, none, some, List, [], ◌∷◌, Rc, ok, failed, Run, done, fault, ◌>>=◌,
}
use fast_cgi_rest_api.Common.Sys.{Bytes, Floats}
use fast_cgi_rest_api.Hook
use fast_cgi_rest_api.Hook.{Hooks, Table, req_free, req_hook_execute}
use fast_cgi_rest_api.Ht
use fast_cgi_rest_api.Poll
use fast_cgi_rest_api.Req.State.{Req}
use fast_cgi_rest_api.Url
use fast_cgi_rest_api.Var
use fast_cgi_rest_api.Var.{VarMap}

-- `fra_p_req_init`: `fcgx` is what `FCGX_Init` returns.
unfoldable pub req_init : (fcgx : Rc) → List Req → Rc × List Req
req_init ok empty_req = (ok, [])
req_init failed empty_req = (failed, empty_req)

-- `fra_p_var_deinit`
unfoldable pub var_deinit : Option VarMap → List (Bytes × Var.Var)
var_deinit map = Ht.free map

-- `fra_p_var_store_size_get`, whose locks do nothing: the code and the size.
unfoldable pub store_size_get : Var.Store → Rc × ℕ
store_size_get glob = (ok, glob.size)

module _ ⦃fl : Floats⦄ where
  -- `fra_p_req_deinit`: the requests that are freed, each after its hooks, whose codes are not read.
  unfoldable pub req_deinit :
      {W : Type 0} → (ℕ → ℕ → W → Rc × W) → Table → List Req → W → List ℕ × W
  req_deinit call req_hooks [] w = ([], w)
  req_deinit call req_hooks (cur ∷ rest) w =
      let (rc, w') = req_hook_execute (call cur.addr) req_hooks none req_free w in
      let (freed, w'') = req_deinit call req_hooks rest w' in (cur.addr ∷ freed, w'')

  -- The static variables that the start and the stop set. `hooks` are both tables of hooks, or none: a
  -- table without the other is left out.
  pub record Lib : Type 0 where
    pub poll : Poll.State
    pub hooks : Option (Table × Table)
    pub vars : Option VarMap
    pub empty_req : List Req
    pub urls : Option Url.Table

  -- What the allocations, the mutex and `FCGX_Init` return.
  pub record Inits : Type 0 where
    pub lock : Rc
    pub unlocked : Rc
    pub poll : Bool
    pub callbacks : Bool
    pub fd_add : Poll.Allocs
    pub glob_hooks : Bool
    pub req_hooks : Bool
    pub vars : Bool
    pub vars_buck : Bool
    pub fcgx : Rc
    pub urls : Bool
    pub urls_buck : Bool

  -- The calls behind that of `fra_p_poll_init`, the last one first.
  unfoldable pub init_urls : Inits → Lib → Rc × Lib
  init_urls m s =
      let (rc, urls) = Url.init false 0 m.urls m.urls_buck in (rc, record s { urls = urls })

  unfoldable pub init_req : Inits → Lib → Rc × Lib
  unfolding init_urls req_init
  init_req m s =
      let (rc, empty_req) = req_init m.fcgx s.empty_req in
      let s' : Lib = record s { empty_req = empty_req } in
      elim rc [ ok ↦ init_urls m s' | failed ↦ (failed, s') ]

  unfoldable pub init_vars : Inits → Lib → Rc × Lib
  unfolding init_req
  init_vars m s =
      let (rc, vars) = Var.init m.vars m.vars_buck 400 in
      let s' : Lib = record s { vars = vars } in
      elim rc [ ok ↦ init_req m s' | failed ↦ (failed, s') ]

  unfoldable pub init_hooks : Inits → Lib → Rc × Lib
  unfolding init_vars
  init_hooks m s = elim (Hook.init m.glob_hooks m.req_hooks) [
    | none ↦ (failed, s)
    | some hooks ↦ init_vars m (record s { hooks = some hooks })
  ]

  -- `fra_glob_init`: what was made is not taken back if a later call fails.
  unfoldable pub glob_init : Inits → ℕ → Lib → Run (Rc × Lib)
  unfolding init_hooks
  glob_init m handle_new s = do
    (rc, poll) ← Poll.poll_init m.lock m.unlocked m.poll m.callbacks m.fd_add s.poll handle_new
    elim rc [
      | ok ↦ done (init_hooks m (record s { poll = poll }))
      | failed ↦ done (failed, record s { poll = poll })
    ]

  -- What the stop takes back, in its order; the strings and nodes of the elements go with them.
  pub record Freed : Type 0 where
    pub urls : List (Bytes × Url.Chain)
    pub requests : List ℕ
    pub vars : List (Bytes × Var.Var)
    pub hooks : Hooks × Hooks

  -- `fra_glob_deinit`. Without tables of hooks, `fra_p_hook_free` reads through NULL; the pointers but
  -- that to the urls stay as they are.
  unfoldable pub glob_deinit : {W : Type 0} → (ℕ → ℕ → W → Rc × W) → Lib → W → Run (Freed × Lib × W)
  unfolding req_deinit var_deinit
  glob_deinit call s w = elim s.hooks [
    | none ↦ fault
    | some hooks ↦ do
      let (urls, strings) = Url.deinit s.urls
      let (requests, w') = req_deinit call hooks.1 s.empty_req w
      freed ← Hook.deinit hooks.0 hooks.1
      done (
        record { urls = strings; requests = requests; vars = var_deinit s.vars; hooks = freed },
        record s { urls = urls; empty_req = []; poll = Poll.poll_deinit s.poll },
        w',
      )
  ]
