-- ===== src/Hook.antt =====
-- src/hook.c: tables of callbacks ordered by priority, and the loop that runs them. `fra_p_pthreads` is
-- 0, as src/lock.c sets it, so the locks do nothing. A callback is a function pointer, a number, 0 for
-- NULL; it acts on a world `W` that does not hold the table it is run from.
pub mod Order
pub mod Register
pub mod Execute
pub mod Free
use fast_cgi_rest_api.Common.{
  ℕ, zero, suc, Bool, true, false, not, Option, none, some, List, [], ◌∷◌, ◌++◌, Run, done, fault,
  ◌>>=◌, Rc, ok, failed, length, get_elem?, set, replicate, ltb, ◌==◌, if◌then◌else◌,
}
use fast_cgi_rest_api.Common.Sys.{Floats}

-- `struct fra_p_hook`, without its link
pub record Hook (P : Type 0) : Type 0 where
  pub callback : ℕ
  pub priority : P

-- `enum fra_glob_hook_type` and `enum fra_hook_type`
pub data GlobHookType : Type 0 where
  req_incoming : GlobHookType

pub data HookType : Type 0 where
  req_created end_store_created req_before_fcgx req_before_endpoint req_new : HookType
  req_free end_store_free : HookType

abbrev pub glob_hook_count : ℕ
glob_hook_count = 1

abbrev pub hook_count : ℕ
hook_count = 7

abbrev pub glob_index : GlobHookType → ℕ
glob_index req_incoming = 0

abbrev pub hook_index : HookType → ℕ
hook_index req_created = 0
hook_index end_store_created = 1
hook_index req_before_fcgx = 2
hook_index req_before_endpoint = 3
hook_index req_new = 4
hook_index req_free = 5
hook_index end_store_free = 6

module _ ⦃fl : Floats⦄ where
  abbrev pub Hooks : Type 0
  Hooks = List (Hook fl.F)

  abbrev pub Table : Type 0
  Table = List Hooks

  -- A `calloc`ed array of lists.
  unfoldable pub new_table : ℕ → Table
  new_table count = replicate count []

  -- `fra_p_hook_init`: the two tables, by what the two calls of `calloc` return.
  unfoldable pub init : (glob_alloc req_alloc : Bool) → Option (Table × Table)
  unfolding new_table
  init true true = some (new_table glob_hook_count, new_table hook_count)
  init true false = none
  init false req_alloc = none

  -- `fra_p_hook_free`: the nodes that are freed, in that order. A list beyond the table is not read.
  unfoldable pub free : Table → ℕ → Run Hooks
  free hooks zero = done []
  free [] (suc type_count) = fault
  free (cur ∷ hooks) (suc type_count) = free hooks type_count >>= λ rest. done (cur ++ rest)

  -- `fra_p_hook_deinit`: the nodes of both tables.
  unfoldable pub deinit : (glob_hooks req_hooks : Table) → Run (Hooks × Hooks)
  unfolding free
  deinit glob_hooks req_hooks = do
    freed ← free glob_hooks glob_hook_count
    freed' ← free req_hooks hook_count
    done (freed, freed')

  -- The loop of `hook_reg`, from the node `cur`.
  unfoldable pub insert_from : Hook fl.F → Hook fl.F → Hooks → Hooks
  insert_from new cur [] = cur ∷ new ∷ []
  insert_from new cur (next ∷ rest) =
      let later = cur ∷ insert_from new next rest in
      if fl.lt new.priority next.priority then cur ∷ new ∷ next ∷ rest else later

  -- Where the new node goes in a list.
  unfoldable pub insert : Hook fl.F → Hooks → Hooks
  unfolding insert_from
  insert new [] = new ∷ []
  insert new (head ∷ rest) =
      if fl.lt new.priority head.priority then new ∷ head ∷ rest else insert_from new head rest

  -- The flag tells whether `malloc` succeeds. An index below `type_max` is one of the table.
  unfoldable pub hook_reg : Bool → Table → ℕ → ℕ → fl.F → ℕ → Rc × Table
  hook_reg allocated hooks type callback priority type_max =
      let new : Hook fl.F = record { callback = callback; priority = priority } in
      let entered : Rc × Table = elim (get_elem? hooks type) [
        | none ↦ (failed, hooks)
        | some l ↦ (ok, set hooks type (insert new l))
      ] in
      if not (ltb type type_max)
      then (failed, hooks)
      else if callback == 0
      then (failed, hooks)
      else if allocated
      then entered
      else (failed, hooks)

  -- `fra_glob_hook_reg`, `fra_req_hook_reg` and `fra_end_hook_reg`, the last two on the table of all
  -- requests and on that of an endpoint.
  unfoldable pub glob_hook_reg : Bool → Table → GlobHookType → ℕ → fl.F → Rc × Table
  unfolding hook_reg
  glob_hook_reg a hooks type callback priority =
      hook_reg a hooks (glob_index type) callback priority glob_hook_count

  unfoldable pub req_hook_reg : Bool → Table → HookType → ℕ → fl.F → Rc × Table
  unfolding hook_reg
  req_hook_reg a hooks type callback priority =
      hook_reg a hooks (hook_index type) callback priority hook_count

  module _ {W : Type 0} (call : ℕ → W → Rc × W) where
    -- The loop of `hook_execute`: it stops at the first callback that does not return 0.
    unfoldable pub run_hooks : Hooks → W → Rc × W
    run_hooks [] w = (ok, w)
    run_hooks (h ∷ hs) w =
        let (rc, w') = call h.callback w in
        let rest = run_hooks hs w' in
        if h.callback == 0 then (failed, w) else elim rc [ ok ↦ rest | failed ↦ (failed, w') ]

    unfoldable pub hook_execute : Option Table → ℕ → ℕ → W → Rc × W
    unfolding run_hooks
    hook_execute none type type_max w = (failed, w)
    hook_execute (some hooks) type type_max w =
        let run : Rc × W = elim (get_elem? hooks type) [
          | none ↦ (failed, w)
          | some l ↦ run_hooks l w
        ] in
        if ltb type type_max then run else (failed, w)

    unfoldable pub glob_hook_execute : Table → GlobHookType → W → Rc × W
    unfolding hook_execute
    glob_hook_execute glob_hooks type w =
        hook_execute (some glob_hooks) (glob_index type) glob_hook_count w

    -- `fra_p_end_hook_execute`, at the table of the request's endpoint
    unfoldable pub end_hook_execute : Option Table → HookType → W → Rc × W
    unfolding hook_execute
    end_hook_execute none type w = (failed, w)
    end_hook_execute (some hooks) type w = hook_execute (some hooks) (hook_index type) hook_count w

    -- `fra_p_req_hook_execute`: the hooks of the endpoint, if the request has one, then those of all
    -- requests.
    unfoldable pub req_hook_execute : Table → Option Table → HookType → W → Rc × W
    unfolding end_hook_execute hook_execute
    req_hook_execute req_hooks none type w =
        hook_execute (some req_hooks) (hook_index type) hook_count w
    req_hook_execute req_hooks (some endpoint) type w =
        let (rc, w') = end_hook_execute (some endpoint) type w in
        let rest = hook_execute (some req_hooks) (hook_index type) hook_count w' in
        elim rc [ ok ↦ rest | failed ↦ (failed, w') ]
