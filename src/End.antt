-- ===== src/End.antt =====
-- src/end.c: an endpoint, with the pool of blocks for its variables. A block is an address; the pool
-- keeps the free ones in a list, and `live` are those that `malloc` has returned and `free` has not
-- taken back. Counters are `int`s that start at 0. `fra_p_pthreads` is 0, so `fra_p_lock` does nothing.
pub mod Ownership
pub mod Reuse
pub mod Free
use fast_cgi_rest_api.Common.{
  ℕ, zero, suc, ◌+◌, ◌-◌, Bool, true, false, Option, none, some, List, [], ◌∷◌, Rc, ok, failed, Run,
  done, fault, ◌>>=◌, if◌then◌else◌,
}
use fast_cgi_rest_api.Common.Blocks.{is_live, remove}
use fast_cgi_rest_api.Common.Growth.{over_growth}
use fast_cgi_rest_api.Common.Sys.{Bytes, Floats}
use fast_cgi_rest_api.Hook
use fast_cgi_rest_api.Hook.{
  Hooks, Table, HookType, end_store_created, end_store_free, new_table, hook_count,
  req_hook_execute,
}
use fast_cgi_rest_api.Ht
use fast_cgi_rest_api.Var
use fast_cgi_rest_api.Var.{VarMap, Store}

-- `store_empty` with its counters
pub record Pool : Type 0 where
  pub empty : List ℕ
  pub empty_count : ℕ
  pub all_count : ℕ
  pub live : List ℕ

-- `struct fra_end`; `callback` is 0 for NULL.
pub record End ⦃fl : Floats⦄ : Type 0 where
  pub store : Store
  pub pool : Pool
  pub hooks : Table
  pub callback : ℕ

abbrev pub empty_pool : Pool
empty_pool = record { empty = []; empty_count = 0; all_count = 0; live = [] }

-- What `malloc`, `pthread_mutex_init`, the two allocations of `fra_p_ht_new` and `calloc` return.
pub record Allocs : Type 0 where
  pub e : Bool
  pub mutex : Rc
  pub ht : Bool
  pub buck : Bool
  pub hooks : Bool

-- `fra_end_new`
unfoldable pub new : ⦃fl : Floats⦄ → Allocs → ℕ → Option End
new m var_count =
    let made : Option End = elim (Var.ht_get m.ht m.buck var_count) [
      | none ↦ none
      | some map ↦
          if m.hooks
          then some (record {
            store = record { map = map; size = 0 };
            pool = empty_pool;
            hooks = new_table hook_count;
            callback = 0;
          })
          else none
    ] in
    if m.e then elim m.mutex [ ok ↦ made | failed ↦ none ] else none

-- `fra_end_callback_set`
unfoldable pub callback_set : ⦃fl : Floats⦄ → End → ℕ → Rc × End
callback_set e callback = (ok, record e { callback = callback })

-- The pool, and the pointer `endpoint_store` of the request, which is undefined at first.
abbrev pub PoolReq : Type 0
PoolReq = Pool × Option ℕ

-- The branch that keeps the block: it writes the link of the block, which must be live.
unfoldable pub store_keep : {W : Type 0} → Pool → ℕ → W → Run (Rc × PoolReq × W)
store_keep p a w =
    if is_live a p.live
    then done (ok, (record p { empty = a ∷ p.empty; empty_count = p.empty_count + 1 }, some a), w)
    else fault

-- What goes with an endpoint: the elements of its map, and the nodes of its hooks.
pub record Ended ⦃fl : Floats⦄ : Type 0 where
  pub vars : List (Bytes × Var.Var)
  pub hooks : Hooks

module _ ⦃fl : Floats⦄ {W : Type 0} (call : ℕ → W → Rc × W) (req_hooks : Table) where
  -- A run of the hooks of a request that has this endpoint.
  abbrev pub end_hooks : Table → HookType → W → Rc × W
  end_hooks hooks type w = req_hook_execute call req_hooks (some hooks) type w

  -- The branch of `fra_p_end_store_set` for a new block `a`: it is freed if the hook fails, and the
  -- request keeps its address.
  unfoldable pub created : Table → Pool → ℕ → W → Rc × PoolReq × W
  created hooks p a w =
      let (rc, w') = end_hooks hooks end_store_created w in
      let live = a ∷ p.live in
      elim rc [
        | ok ↦ (ok, (record p { all_count = p.all_count + 1; live = live }, some a), w')
        | failed ↦ (failed, (record p { live = remove a live }, some a), w')
      ]

  -- `fra_p_end_store_set`, for a request with an endpoint. `block` is what `malloc` returns.
  unfoldable pub store_set : Table → Option ℕ → PoolReq → W → Rc × PoolReq × W
  store_set hooks block (p, store) w = elim p.empty [
    | [] ↦ elim block [ none ↦ (failed, (p, store), w) | some a ↦ created hooks p a w ]
    | a ∷ rest ↦ (ok, (record p { empty = rest; empty_count = p.empty_count - 1 }, some a), w)
  ]

  -- The branch of `fra_p_end_store_maybe_free` that frees. A free of a block that is not live is
  -- undefined.
  unfoldable pub store_free : Table → Pool → ℕ → W → Run (Rc × PoolReq × W)
  store_free hooks p a w =
      let (rc, w') = end_hooks hooks end_store_free w in
      elim rc [
        | failed ↦ done (failed, (p, some a), w')
        | ok ↦
            if is_live a p.live
            then done
                (ok, (record p { all_count = p.all_count - 1; live = remove a p.live }, some a), w')
            else fault
      ]

  -- `fra_p_end_store_maybe_free`, for a request with an endpoint.
  unfoldable pub store_maybe_free : Table → PoolReq → W → Run (Rc × PoolReq × W)
  unfolding store_free store_keep
  store_maybe_free hooks (p, none) w = fault
  store_maybe_free hooks (p, some a) w =
      if over_growth p.all_count p.empty_count then store_free hooks p a w else store_keep p a w

  -- The loop of `fra_end_free`: the code, and the blocks that are live after it.
  unfoldable pub free_stores : Table → List ℕ → List ℕ → W → Run (Rc × List ℕ × W)
  free_stores hooks [] live w = done (ok, live, w)
  free_stores hooks (a ∷ rest) live w =
      let (rc, w') = end_hooks hooks end_store_free w in
      let next = free_stores hooks rest (remove a live) w' in
      elim rc [ failed ↦ done (failed, live, w') | ok ↦ if is_live a live then next else fault ]

  -- `fra_end_free`, which frees the endpoint whatever the hooks return: the code, the blocks that are
  -- lost with it, and the elements of the map and the nodes that are freed. `destroyed` is what
  -- `pthread_mutex_destroy` returns.
  unfoldable pub free : Rc → Option End → W → Run (Rc × List ℕ × Option Ended × W)
  free destroyed none w = done (ok, [], none, w)
  free destroyed (some e) w = do
    (rc, live, w') ← free_stores e.hooks e.pool.empty e.pool.live w
    elim rc [
      | failed ↦ done (failed, live, none, w')
      | ok ↦ do
        nodes ← Hook.free e.hooks hook_count
        done (
          destroyed,
          live,
          some (record { vars = Ht.free (some e.store.map); hooks = nodes }),
          w',
        )
    ]
