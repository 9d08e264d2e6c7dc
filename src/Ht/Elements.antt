-- ===== src/Ht/Elements.antt =====
-- The elements of the hash table: what `fra_p_ht_free` destroys, and what the collision counter counts.
use mathlib.Core.List.{Perm, perm_middle}
use mathlib.Core.List.Perm
use fast_cgi_rest_api.Common.{
  ℕ, zero, suc, ◌+◌, ◌-◌, ◌<◌, ◌≤◌, ◌≡◌, true, some, List, [], ◌∷◌, ◌++◌, arith, ◌⊎◌, flatten,
  append_assoc, length, get_elem?, set, length-append, length-set, get_elem?-some, Returns,
}
use fast_cgi_rest_api.Common.Int.{pos}
use fast_cgi_rest_api.Common.Sys.{Bytes, Strings, Floats}
use fast_cgi_rest_api.Ht.Chain.{Bucket}
use fast_cgi_rest_api.Ht.{Ht, int_min, free, count_collision, bucket_of, insert, put}
use fast_cgi_rest_api.Ht.View.{home, home-lt, index-home}

flatten-set {ℓ} :
    {A : Type ℓ} (bs : List (List A)) (i : ℕ) (b : List A) (x : A)
    → get_elem? bs i ≡ some b
    → Perm (flatten (set bs i (b ++ x ∷ []))) (x ∷ flatten bs)
unfolding flatten
flatten-set [] i b x e = cc
flatten-set (c ∷ bs) zero b x e =
    let e' : c ≡ b = cc in rw (e', append_assoc) (perm_middle b (flatten bs))
flatten-set (c ∷ bs) (suc i) b x e =
    Perm.trans (Perm.append (Perm.refl c) (flatten-set bs i b x e)) (perm_middle c (flatten bs))

-- The elements that are not the first of their bucket.
unfoldable pub excess : {V : Type 0} → List (Bucket V) → ℕ
excess [] = 0
excess (b ∷ bs) = (length b - 1) + excess bs

excess-set :
    {V : Type 0} (bs : List (Bucket V)) (i : ℕ) (b c : Bucket V)
    → get_elem? bs i ≡ some b
    → excess (set bs i c) + (length b - 1) ≡ excess bs + (length c - 1)
unfolding excess
excess-set [] i b c e = cc
excess-set (d ∷ bs) zero b c e = ground arith
excess-set (d ∷ bs) (suc i) b c e = omega (arith, excess-set bs i b c e)

bucket_of-some :
    {A V : Type 0} (ht : Ht A V) (i : ℕ)
    → i < length ht.buck
    → get_elem? ht.buck i ≡ some (bucket_of ht i)
unfolding bucket_of
bucket_of-some ht i h = let (b, at) = get_elem?-some ht.buck i h in rw (at, bucket_of)

-- A successful `fra_p_ht_set` at a table with buckets stores one element more, which
-- `fra_p_ht_free` destroys once, as it does the others.
pub free-insert :
    {A V : Type 0} ⦃st : Strings⦄ ⦃fl : Floats⦄ (ht : Ht A V) (key : Bytes) (arg : A) (v : V)
    → 0 < length ht.buck
    → ht.set_value arg ≡ some v
    → Returns (put true true ht key arg) λ r. Perm (free (some r.1)) ((key, v) ∷ free (some ht))
unfolding put free insert
free-insert ⦃st⦄ ht key arg v h e =
    let at = bucket_of-some ht (home ht key) (home-lt ht key h) in
    (
      insert ht (home ht key) key (some v),
      rw (index-home ht key h, e),
      flatten-set ht.buck (home ht key) _ (key, v) at,
    )

-- The counter of collisions counts the elements beyond the first of each bucket, until it exceeds a
-- tenth of the buckets: then it is reset to `INT_MIN`.
abbrev pub Counted : ⦃fl : Floats⦄ {A V : Type 0} → Ht A V → Type 0
Counted ⦃fl⦄ ht =
    ((ht.collisions_count ≡ pos (excess ht.buck)) × (excess ht.buck ≤ fl.tenth (length ht.buck)))
    ⊎ ((ht.collisions_count ≡ int_min) × (fl.tenth (length ht.buck) < excess ht.buck))

-- A successful `fra_p_ht_set` at a table with buckets whose counter is the number of elements
-- beyond the first of each bucket: the counter is that number again, or it is `INT_MIN` if the
-- number exceeds a tenth of the buckets.
pub put-Counted :
    {A V : Type 0} ⦃st : Strings⦄ ⦃fl : Floats⦄ (ht : Ht A V) (key : Bytes) (arg : A) (v : V)
    → 0 < length ht.buck
    → ht.set_value arg ≡ some v
    → ht.collisions_count ≡ pos (excess ht.buck)
    → Returns (put true true ht key arg) λ r. Counted r.1
unfolding put insert count_collision
put-Counted ⦃st⦄ ht key arg v h e c =
    let at = bucket_of-some ht (home ht key) (home-lt ht key h) in
    (
      insert ht (home ht key) key (some v),
      rw (index-home ht key h, e),
      rw (length-set, c)
          (ground (
            arith,
            excess-set ht.buck (home ht key) _ (bucket_of ht (home ht key) ++ (key, v) ∷ []) at,
            length-append (bucket_of ht (home ht key)) ((key, v) ∷ []),
          )),
    )
