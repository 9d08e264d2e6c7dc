-- ===== src/Ht/Chain.antt =====
-- One bucket of the hash table: the loop that looks for a key, and reads and writes of a value.
use fast_cgi_rest_api.Common.{
  ℕ, zero, suc, ◌≡◌, refl, Bool, true, false, Option, none, some, List, [], ◌∷◌, ◌++◌, arith, ◌↔◌,
  ◌⊎◌, inl, inr, or_else, Bool-cases, if◌then◌else◌,
}
use fast_cgi_rest_api.Common.Sys.{Bytes, Strings}

abbrev pub Bucket : Type 0 → Type 0
Bucket V = List (Bytes × V)

module _ {V : Type 0} where
  unfoldable pub entry_at : Bucket V → ℕ → Option V
  entry_at [] j = none
  entry_at ((k, v) ∷ b) zero = some v
  entry_at ((k, v) ∷ b) (suc j) = entry_at b j

  unfoldable pub assign_at : Bucket V → ℕ → V → Bucket V
  assign_at [] j w = []
  assign_at ((k, v) ∷ b) zero w = (k, w) ∷ b
  assign_at ((k, v) ∷ b) (suc j) w = (k, v) ∷ assign_at b j w

-- One more step of the loop counter, where the loop goes on.
abbrev pub next_index : Option ℕ → Option ℕ
next_index none = none
next_index (some j) = some (suc j)

-- `biseq( a, b ) == 1`
unfoldable pub eq_key : ⦃st : Strings⦄ → Bytes → Bytes → Bool
eq_key ⦃st⦄ a b = elim (st.biseq a b) [ none ↦ false | some e ↦ e ]

module _ {V : Type 0} ⦃st : Strings⦄ where
  -- The loop of `fra_p_ht_get_by_hash` over the elements.
  unfoldable pub find : Bytes → Bucket V → Option ℕ
  find key [] = none
  find key ((k, v) ∷ b) =
      let rest = next_index (find key b) in elim (eq_key k key) [ true ↦ some 0 | false ↦ rest ]

pub eq_key_iff : ⦃st : Strings⦄ (a b : Bytes) → (eq_key a b ≡ true) ↔ (a ≡ b)
unfolding eq_key
eq_key_iff ⦃st⦄ a b = ground (arith, st.biseq_decides a b)

pub eq_key_refl : ⦃st : Strings⦄ (a : Bytes) → eq_key a a ≡ true
eq_key_refl a = (eq_key_iff a a).1 refl

-- The value of the first element with the key.
unfoldable pub lookup : {V : Type 0} ⦃st : Strings⦄ → Bytes → Bucket V → Option V
lookup key [] = none
lookup key ((k, v) ∷ b) = let rest = lookup key b in if eq_key k key then some v else rest

module _ {V : Type 0} ⦃st : Strings⦄ where
  -- The position that `find` returns leads to the value of the key, and it finds one if there is one.
  pub find-lookup :
      (q : Bytes) (b : Bucket V)
      → ((find q b ≡ none) × (lookup q b ≡ none))
        ⊎ ((j : ℕ) × (v : V) × (find q b ≡ some j)
            × (lookup q b ≡ some v)
            × (entry_at b j ≡ some v))
  unfolding find lookup entry_at
  find-lookup q [] = inl (refl, refl)
  find-lookup q ((k, v) ∷ b) = elim (Bool-cases (eq_key k q)) [
    | inl e ↦ inr (0, v, rw (e, find), rw e, refl)
    | inr e ↦ elim (find-lookup q b) [
      | inl (f, l) ↦ inl (rw (e, f, find), rw (e, l))
      | inr (j, w, f, l, h) ↦ inr (suc j, w, rw (e, f, find), rw (e, l), h)
    ]
  ]

  pub lookup-append :
      (q k : Bytes) (v : V) (b : Bucket V)
      → lookup q (b ++ (k, v) ∷ []) ≡ or_else (lookup q b) (if eq_key k q then some v else none)
  unfolding lookup
  lookup-append q k v [] = refl
  lookup-append q k v ((i, w) ∷ b) = ground (arith, lookup-append q k v b)

  -- A write at the position of a key changes the value of that key alone.
  pub lookup-assign_at :
      (q k : Bytes) (j : ℕ) (w : V) (b : Bucket V)
      → find k b ≡ some j
      → lookup q (assign_at b j w) ≡ (if eq_key k q then some w else lookup q b)
  unfolding lookup find assign_at
  lookup-assign_at q k j w [] h = cc
  lookup-assign_at q k zero w ((i, v) ∷ b) h =
      ground (arith, eq_key_iff i k, eq_key_iff i q, eq_key_iff k q, find-lookup k b)
  lookup-assign_at q k (suc j) w ((i, v) ∷ b) h =
      ground (arith, eq_key_iff i k, eq_key_iff i q, eq_key_iff k q, lookup-assign_at q k j w b)
