-- ===== src/End/Ownership.antt =====
-- Who owns the blocks of an endpoint: the free list or a request, never both, and never twice.
use fast_cgi_rest_api.Common.{
  ℕ, ◌+◌, ◌≤◌, ◌≡◌, refl, true, false, Option, none, some, List, [], ◌∷◌, arith, ◌⊎◌, inl, inr,
  List-cases, length, ==_iff, Rc, ok, failed, Rc-cases, Returns,
}
use fast_cgi_rest_api.Common.Blocks.{count, is_live, remove-cons, is_live-count, count-is_live}
use fast_cgi_rest_api.Common.Growth.{over_growth_never}
use fast_cgi_rest_api.Common.Sys.{Floats}
use fast_cgi_rest_api.Hook.{Table, end_store_created}
use fast_cgi_rest_api.End.{
  Pool, empty_pool, PoolReq, end_hooks, created, store_set, store_keep, store_maybe_free,
}

-- `used` are the blocks that requests hold. A live block is in the free list or in use, once, and the
-- counters are exact.
pub record IsOwned (p : Pool) (used : List ℕ) : Type 0 where
  pub owned : (a : ℕ) → count a p.live ≡ count a p.empty + count a used
  pub once : (a : ℕ) → count a p.live ≤ 1
  pub sizes : length p.live ≡ length p.empty + length used
  pub empties : p.empty_count ≡ length p.empty
  pub all : p.all_count ≡ length p.live

pub empty_pool-IsOwned : IsOwned empty_pool []
unfolding count
empty_pool-IsOwned = record {
  owned = λ a. omega arith;
  once = λ a. omega arith;
  sizes = omega arith;
  empties = refl;
  all = refl;
}

module _ ⦃fl : Floats⦄ {W : Type 0} (call : ℕ → W → Rc × W) (req_hooks : Table) where
  -- What a successful call gives the request: a block that nobody else holds.
  pub record Gives (used : List ℕ) (r : Rc × PoolReq × W) : Type 0 where
    pub code : r.0 ≡ ok
    pub block : ℕ
    pub held : r.1.1 ≡ some block
    pub apart : count block used ≡ 0
    pub owned : IsOwned r.1.0 (block ∷ used)

  -- The pool after a failed call: nobody gained or lost a block.
  pub record Refuses (p : Pool) (r : Rc × PoolReq × W) : Type 0 where
    pub code : r.0 ≡ failed
    pub pool : r.1.0 ≡ p

  reuse-Gives :
      (hooks : Table) (block : Option ℕ) (p : Pool) (store : Option ℕ) (w : W) (a : ℕ)
      (rest used : List ℕ)
      → IsOwned p used
      → p.empty ≡ a ∷ rest
      → Gives used (store_set call req_hooks hooks block (p, store) w)
  unfolding store_set count
  reuse-Gives hooks block p store w a rest used h e = simp e (record {
    code = refl;
    block = a;
    held = refl;
    apart = ground (arith, h.owned a, h.once a);
    owned = record {
      owned = λ q. ground (arith, h.owned q);
      once = h.once;
      sizes = ground (arith, h.sizes);
      empties = ground (arith, h.empties);
      all = h.all;
    };
  })

  -- A block that `malloc` returns is not live.
  abbrev pub IsFresh : Option ℕ → List ℕ → Type 0
  IsFresh none live = Unit {0}
  IsFresh (some a) live = is_live a live ≡ false

  created-Gives :
      (hooks : Table) (p : Pool) (a : ℕ) (w : W) (used : List ℕ)
      → IsOwned p used
      → p.empty ≡ []
      → is_live a p.live ≡ false
      → (end_hooks call req_hooks hooks end_store_created w).0 ≡ ok
      → Gives used (created call req_hooks hooks p a w)
  unfolding created count
  created-Gives hooks p a w used h e fresh good =
      rw (good, created)
        (record {
          code = refl;
          block = a;
          held = refl;
          apart = ground (arith, h.owned a, count-is_live a p.live);
          owned = record {
            owned = λ q. ground (arith, h.owned q);
            once = λ q. ground (arith, h.once q, ==_iff a q, count-is_live a p.live);
            sizes = ground (arith, h.sizes);
            empties = h.empties;
            all = ground (arith, h.all);
          };
        })

  created-cases :
      (hooks : Table) (p : Pool) (a : ℕ) (w : W) (used : List ℕ)
      → IsOwned p used
      → p.empty ≡ []
      → is_live a p.live ≡ false
      → Gives used (created call req_hooks hooks p a w)
        ⊎ Refuses p (created call req_hooks hooks p a w)
  unfolding created
  created-cases hooks p a w used h e fresh =
      elim (Rc-cases (end_hooks call req_hooks hooks end_store_created w).0) [
        | inl good ↦ inl (created-Gives hooks p a w used h e fresh good)
        | inr bad ↦ inr (rw (bad, created) (record { code = refl; pool = rw remove-cons }))
      ]

  -- With a block from `malloc` and hooks that return 0 the call succeeds.
  pub store_set-Gives :
      (hooks : Table) (a : ℕ) (p : Pool) (store : Option ℕ) (w : W) (used : List ℕ)
      → IsOwned p used
      → is_live a p.live ≡ false
      → (end_hooks call req_hooks hooks end_store_created w).0 ≡ ok
      → Gives used (store_set call req_hooks hooks (some a) (p, store) w)
  unfolding store_set
  store_set-Gives hooks a p store w used h fresh good = elim (List-cases p.empty) [
    | inr (b, rest, e) ↦ reuse-Gives hooks (some a) p store w b rest used h e
    | inl e ↦ simp e (created-Gives hooks p a w used h e fresh good)
  ]

  new-cases :
      (hooks : Table) (block : Option ℕ) (p : Pool) (store : Option ℕ) (w : W) (used : List ℕ)
      → IsOwned p used
      → p.empty ≡ []
      → IsFresh block p.live
      → let r : Rc × PoolReq × W = elim block [
        | none ↦ (failed, (p, store), w)
        | some a ↦ created call req_hooks hooks p a w
      ] in
        Gives used r ⊎ Refuses p r
  new-cases hooks none p store w used h e fresh = inr (record { code = refl; pool = refl })
  new-cases hooks (some a) p store w used h e fresh = created-cases hooks p a w used h e fresh

  -- `fra_p_end_store_set` on every branch, at a pool whose live blocks are free or in use once, if
  -- `malloc` returns a block that is not live: it gives the request a block that no other request
  -- holds and that is no longer free, or it fails and the pool is as it was.
  pub store_set-cases :
      (hooks : Table) (block : Option ℕ) (p : Pool) (store : Option ℕ) (w : W) (used : List ℕ)
      → IsOwned p used
      → IsFresh block p.live
      → Gives used (store_set call req_hooks hooks block (p, store) w)
        ⊎ Refuses p (store_set call req_hooks hooks block (p, store) w)
  unfolding store_set
  store_set-cases hooks block p store w used h fresh = elim (List-cases p.empty) [
    | inr (a, rest, e) ↦ inl (reuse-Gives hooks block p store w a rest used h e)
    | inl e ↦ simp e (new-cases hooks block p store w used h e fresh)
  ]

  keep-IsOwned :
      (p : Pool) (a : ℕ) (used : List ℕ)
      → IsOwned p (a ∷ used)
      → IsOwned (record p { empty = a ∷ p.empty; empty_count = p.empty_count + 1 }) used
  unfolding count
  keep-IsOwned p a used h = record {
    owned = λ q. ground (arith, h.owned q);
    once = h.once;
    sizes = ground (arith, h.sizes);
    empties = ground (arith, h.empties);
    all = h.all;
  }

  held-is_live : (p : Pool) (a : ℕ) (used : List ℕ) → IsOwned p (a ∷ used) → is_live a p.live ≡ true
  unfolding count
  held-is_live p a used h = is_live-count a p.live (ground (arith, h.owned a))

  -- `fra_p_end_store_maybe_free` takes a block that a request holds back into such a pool: it
  -- always returns 0, puts the block in front of the free list, and neither runs a hook nor frees a
  -- block.
  pub store_maybe_free-IsOwned :
      (hooks : Table) (p : Pool) (a : ℕ) (w : W) (used : List ℕ)
      → IsOwned p (a ∷ used)
      → Returns (store_maybe_free call req_hooks hooks (p, some a) w) λ r.
        (r.0 ≡ ok)
        × IsOwned r.1.0 used
        × (r.1.0.empty ≡ a ∷ p.empty)
        × (r.1.0.live ≡ p.live)
        × (r.2 ≡ w)
  unfolding store_maybe_free store_keep
  store_maybe_free-IsOwned hooks p a w used h = (
    (ok, (record p { empty = a ∷ p.empty; empty_count = p.empty_count + 1 }, some a), w),
    rw (over_growth_never p.all_count p.empty_count, held-is_live p a used h),
    (refl, keep-IsOwned p a used h, refl, refl, refl),
  )
