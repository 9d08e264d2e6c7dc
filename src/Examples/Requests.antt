-- ===== src/Examples/Requests.antt =====
-- Endpoints and their blocks at concrete values.
use fast_cgi_rest_api.Common.{
  flatten, ℕ, suc, ◌≡◌, ◌⊎◌, refl, false, none, some, [], ◌∷◌, arith, length, Rc, ok, failed, fault,
  Returns,
}
use fast_cgi_rest_api.Common.Blocks.{count, is_live}
use fast_cgi_rest_api.Common.Growth.{over_growth, over_growth_never}
use fast_cgi_rest_api.Common.Int.{pos}
use fast_cgi_rest_api.Ht
use fast_cgi_rest_api.Hook.{
  Table, end_store_created, end_store_free, req_hook_execute, end_hook_execute, hook_execute,
  run_hooks,
}
use fast_cgi_rest_api.Var
use fast_cgi_rest_api.End.{End, Pool, empty_pool, end_hooks, store_set, store_maybe_free, free}
use fast_cgi_rest_api.End.Ownership.{
  IsOwned, Gives, Refuses, empty_pool-IsOwned, store_set-cases, store_maybe_free-IsOwned,
}
use fast_cgi_rest_api.End.Reuse.{store_maybe_free-store_set}
use fast_cgi_rest_api.End.Free.{free-Returns}
use fast_cgi_rest_api.Examples.{strings, floats}

abbrev pub no_hooks : Table
no_hooks = [] ∷ [] ∷ [] ∷ [] ∷ [] ∷ [] ∷ [] ∷ []

-- A hook for new blocks.
abbrev some_hooks : Table
some_hooks = [] ∷ (record { callback = 9; priority = pos 0 } ∷ []) ∷ [] ∷ [] ∷ [] ∷ [] ∷ [] ∷ []

-- Callbacks that succeed and count their calls, and callbacks that fail.
abbrev pub succeed : ℕ → ℕ → Rc × ℕ
succeed callback n = (ok, suc n)

abbrev fail : ℕ → ℕ → Rc × ℕ
fail callback n = (failed, n)

store_set-cases_example :
    let r = store_set succeed no_hooks some_hooks (some 64) (empty_pool, none) 0 in
    Gives succeed no_hooks [] r ⊎ Refuses succeed no_hooks empty_pool r
unfolding is_live
store_set-cases_example =
    store_set-cases succeed no_hooks some_hooks (some 64) empty_pool none 0 [] empty_pool-IsOwned
      refl

-- A pool with a free block and one in use.
abbrev pool : Pool
pool = record { empty = 64 ∷ []; empty_count = 1; all_count = 2; live = 128 ∷ 64 ∷ [] }

pool-IsOwned : IsOwned pool (128 ∷ [])
unfolding count
pool-IsOwned = record {
  owned = λ a. ground arith;
  once = λ a. ground arith;
  sizes = refl;
  empties = refl;
  all = refl;
}

store_maybe_free-IsOwned_example :
    Returns (store_maybe_free succeed no_hooks no_hooks (pool, some 128) 0) λ r.
      (r.0 ≡ ok)
      × IsOwned r.1.0 []
      × (r.1.0.empty ≡ 128 ∷ 64 ∷ [])
      × (r.1.0.live ≡ 128 ∷ 64 ∷ [])
      × (r.2 ≡ 0)
store_maybe_free-IsOwned_example =
    store_maybe_free-IsOwned succeed no_hooks no_hooks pool 128 0 [] pool-IsOwned

hook_fails : (end_hooks fail no_hooks some_hooks end_store_created 0).0 ≡ failed
unfolding req_hook_execute end_hook_execute hook_execute run_hooks
hook_fails = refl

store_maybe_free-store_set_example :
    let r = store_set fail no_hooks some_hooks (some 64) (empty_pool, none) 0 in
    (r.0 ≡ failed) × (store_maybe_free fail no_hooks some_hooks r.1 r.2 ≡ fault)
unfolding is_live
store_maybe_free-store_set_example =
    store_maybe_free-store_set fail no_hooks some_hooks 64 empty_pool none 0 refl refl hook_fails

abbrev endpoint : End
endpoint = record {
  store = record {
    map = record { set_value = Var.var_set; collisions_count = pos 0; buck = [] ∷ [] };
    size = 0;
  };
  pool = pool;
  hooks = no_hooks;
  callback = 5;
}

no_hooks_free : (v : ℕ) → (end_hooks succeed no_hooks no_hooks end_store_free v).0 ≡ ok
unfolding req_hook_execute end_hook_execute hook_execute run_hooks
no_hooks_free v = refl

free-Returns_example : Returns (free succeed no_hooks ok (some endpoint) 0) λ r.
    (r.0 ≡ ok)
    × ((a : ℕ) → count a r.1 ≡ count a (128 ∷ []))
    × (length r.1 ≡ 1)
    × (r.2 ≡ some (record { vars = Ht.free (some endpoint.store.map); hooks = flatten no_hooks }))
free-Returns_example =
    free-Returns succeed no_hooks endpoint ok (128 ∷ []) 0 no_hooks_free pool-IsOwned refl

over_growth_never_example : over_growth 3 0 ≡ false
over_growth_never_example = over_growth_never 3 0
