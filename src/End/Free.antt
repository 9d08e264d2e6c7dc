-- ===== src/End/Free.antt =====
-- `fra_end_free`: the loop that frees the blocks of the free list.
use fast_cgi_rest_api.Common.{
  ℕ, ◌+◌, ◌≡◌, refl, some, List, [], ◌∷◌, arith, Rc, ok, ◌>>=◌, Returns, length, ==_iff, flatten,
  subst, done,
}
use fast_cgi_rest_api.Common.Blocks.{count, remove, is_live-count, count-remove, length-remove}
use fast_cgi_rest_api.Common.Sys.{Floats}
use fast_cgi_rest_api.Hook
use fast_cgi_rest_api.Hook.{Table, end_store_free, hook_count}
use fast_cgi_rest_api.Hook.Free.{free-flatten}
use fast_cgi_rest_api.Ht
use fast_cgi_rest_api.End.{End, end_hooks, free_stores, free}
use fast_cgi_rest_api.End.Ownership.{IsOwned}

module _ ⦃fl : Floats⦄ {W : Type 0} (call : ℕ → W → Rc × W) (req_hooks : Table) where
  -- The hooks that run before a block is freed all return 0.
  abbrev pub Freeable : Table → Type 0
  Freeable hooks = (v : W) → (end_hooks call req_hooks hooks end_store_free v).0 ≡ ok

  free_stores-Returns :
      (hooks : Table) (empty live used : List ℕ) (w : W)
      → Freeable hooks
      → ((a : ℕ) → count a live ≡ count a empty + count a used)
      → length live ≡ length empty + length used
      → Returns
          (free_stores call req_hooks hooks empty live w)
          λ r. (r.0 ≡ ok) × ((a : ℕ) → count a r.1 ≡ count a used) × (length r.1 ≡ length used)
  unfolding free_stores count
  free_stores-Returns hooks [] live used w good h s =
      ((ok, live, w), refl, (refl, λ a. omega (arith, h a), omega arith))
  free_stores-Returns hooks (a ∷ rest) live used w good h s =
      let here = is_live-count a live (ground (arith, h a)) in
      let (r, run, out) =
        free_stores-Returns hooks rest (remove a live) used
          (end_hooks call req_hooks hooks end_store_free w).1 good
          (λ q. ground (arith, h q, count-remove a q live here, ==_iff a q))
          (omega (arith, length-remove a live here)) in
      (r, rw (good w, here, free_stores) run, out)

  -- `fra_end_free` of an endpoint whose pool has each live block free or in use once, whose hooks
  -- return 0, and whose table of hooks is whole. It frees each block of the free list once and no block
  -- that is not live; as many blocks of each address stay allocated as requests hold. Then it frees the
  -- elements of the map and all nodes of the hooks, and returns what destroying the mutex returns.
  pub free-Returns :
      (e : End) (destroyed : Rc) (used : List ℕ) (w : W)
      → Freeable e.hooks
      → IsOwned e.pool used
      → length e.hooks ≡ hook_count
      → Returns (free call req_hooks destroyed (some e) w) λ r.
        (r.0 ≡ destroyed)
        × ((a : ℕ) → count a r.1 ≡ count a used)
        × (length r.1 ≡ length used)
        × (r.2 ≡ some (record { vars = Ht.free (some e.store.map); hooks = flatten e.hooks }))
  unfolding free
  free-Returns e destroyed used w good h whole =
      let ((rc, live, w'), run, (code, left, size)) =
        free_stores-Returns e.hooks e.pool.empty e.pool.live used w good h.owned h.sizes in
      let nodes : Hook.free e.hooks hook_count ≡ done (flatten e.hooks) =
        subst (λ n. Hook.free e.hooks n ≡ done (flatten e.hooks)) whole (free-flatten e.hooks) in
      (
        (
          destroyed,
          live,
          some (record { vars = Ht.free (some e.store.map); hooks = flatten e.hooks }),
          w',
        ),
        rw (run, ◌>>=◌, code, nodes) refl,
        (refl, left, size, refl),
      )
