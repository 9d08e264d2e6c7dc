-- ===== src/End/Reuse.antt =====
-- What the error path of a request does to a block that `fra_p_end_store_set` has freed.
use fast_cgi_rest_api.Common.{ℕ, ◌≡◌, refl, false, Option, some, [], Rc, failed, fault}
use fast_cgi_rest_api.Common.Blocks.{is_live, remove-cons}
use fast_cgi_rest_api.Common.Growth.{over_growth_never}
use fast_cgi_rest_api.Common.Sys.{Floats}
use fast_cgi_rest_api.Hook.{Table, end_store_created}
use fast_cgi_rest_api.End.{Pool, end_hooks, created, store_set, store_keep, store_maybe_free}

module _ ⦃fl : Floats⦄ {W : Type 0} (call : ℕ → W → Rc × W) (req_hooks : Table) where
  created-failed :
      (hooks : Table) (a : ℕ) (p : Pool) (w : W)
      → (end_hooks call req_hooks hooks end_store_created w).0 ≡ failed
      → created call req_hooks hooks p a w
        ≡ (failed, (p, some a), (end_hooks call req_hooks hooks end_store_created w).1)
  unfolding created
  created-failed hooks a p w bad = rw (bad, created, remove-cons)

  -- At a pool without a free block, if `malloc` returns a block that is not live and a hook fails
  -- for it, the block is freed and the request keeps its address; `fra_p_end_store_maybe_free`,
  -- which the cleanup of the request calls, then writes to the freed block.
  pub store_maybe_free-store_set :
      (hooks : Table) (a : ℕ) (p : Pool) (store : Option ℕ) (w : W)
      → p.empty ≡ []
      → is_live a p.live ≡ false
      → (end_hooks call req_hooks hooks end_store_created w).0 ≡ failed
      → let r = store_set call req_hooks hooks (some a) (p, store) w in
        (r.0 ≡ failed) × (store_maybe_free call req_hooks hooks r.1 r.2 ≡ fault)
  unfolding store_set store_maybe_free store_keep
  store_maybe_free-store_set hooks a p store w e fresh bad =
      simp (e, created-failed hooks a p w bad)
        (refl, rw (over_growth_never p.all_count p.empty_count, fresh))
