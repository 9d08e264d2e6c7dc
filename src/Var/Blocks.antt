-- ===== src/Var/Blocks.antt =====
-- The block of variables that calls of `reg` lay out from an empty map on.
use fast_cgi_rest_api.Common.{
  ℕ, ◌+◌, ◌≤◌, ◌<◌, ◌≡◌, refl, ◌∙◌, ◌≢◌, ◌⊎◌, true, some, List, [], arith, ok, Returns,
}
use fast_cgi_rest_api.Common.Sys.{Bytes, Strings, Floats}
use fast_cgi_rest_api.Ht.View.{view}
use fast_cgi_rest_api.Ht.Fresh.{new-IsFresh}
use fast_cgi_rest_api.Var.{Var, VarMap, Store, init, ht_get, var_set}
use fast_cgi_rest_api.Var.Layout.{
  Entry, entry_of, IsStore, Call, made, reg_all, reg_all-IsStore, vars_disjoint,
}

module _ ⦃st : Strings⦄ where
  abbrev pub empty_store : VarMap → Store
  empty_store map = record { map = map; size = 0 }

  init-IsStore :
      (var_count : ℕ)
      → 0 < var_count
      → (map : VarMap) × (init true true var_count ≡ (ok, some map)) × IsStore (empty_store map) []
  unfolding init ht_get
  init-IsStore n h =
      let (map, e, f) = new-IsFresh n var_set h in
      (
        map,
        rw (init, ht_get, e),
        record {
          width = f.width;
          setter = λ a. rw f.setter;
          laid = refl;
          bounded = omega arith;
          reads = λ q. f.reads q ∙ unfold entry_of in refl;
        },
      )

  -- Calls of `reg` on a new map with buckets, in any order and with any failures among them: the store
  -- has the registrations `made 0 calls`, which are those of the calls that succeed, in their order and
  -- with their names, types and sizes, each at the offset where the one before ends. Two names that the
  -- map then has stand for the variables of their first registrations: they lie in the block, each with
  -- the size of that registration, and do not overlap.
  pub reg_all-disjoint :
      ⦃fl : Floats⦄ (var_count : ℕ) (calls : List Call)
      → 0 < var_count
      → let es = made 0 calls in
        (map : VarMap) × (init true true var_count ≡ (ok, some map))
        × Returns (reg_all calls (empty_store map)) λ s.
          IsStore s es
          × ((p q : Bytes) (v w : Var)
              → p ≢ q
              → view s.map p ≡ some v
              → view s.map q ≡ some w
              → (x y : Entry) × (entry_of p es ≡ some x)
                × (entry_of q es ≡ some y)
                × (v.position + x.size ≤ s.size)
                × (w.position + y.size ≤ s.size)
                × ((v.position + x.size ≤ w.position) ⊎ (w.position + y.size ≤ v.position)))
  reg_all-disjoint n calls h =
      let (map, e, fresh) = init-IsStore n h in
      let (s, run, stored) = reg_all-IsStore calls (empty_store map) [] fresh in
      (
        map,
        e,
        (s, run, (stored, λ p q v w m f g. vars_disjoint s (made 0 calls) p q v w stored m f g)),
      )
