-- ===== src/Ht/View.antt =====
-- The hash table as a map from keys to values: what `fra_p_ht_set`, `fra_p_ht_get` and a write through
-- a returned pointer do to it.
use fast_cgi_rest_api.Common.{
  ℕ, suc, ◌-◌, ◌%◌, ◌&&◌, ◌==◌, ◌<◌, ◌≡◌, refl, ap, Bool, true, false, Option, none, some, arith,
  ◌⊎◌, inl, inr, or_else, or_else-none, if◌then◌else◌, length, set, length-set, get_elem?-set_self,
  get_elem?-set_ne, Rc, ok, failed, done, ◌>>=◌, Returns,
}
use fast_cgi_rest_api.Common.Int.{ℤ}
use fast_cgi_rest_api.Common.Sys.{Bytes, Strings, Floats}
use fast_cgi_rest_api.Ht.Chain.{
  Bucket, assign_at, eq_key, eq_key_iff, lookup, find-lookup, lookup-append, lookup-assign_at,
}
use fast_cgi_rest_api.Ht.{Ht, Ptr, index, bucket_of, insert, put, get, get_by_hash, deref, store}

module _ {A V : Type 0} ⦃st : Strings⦄ where
  -- The bucket that a key belongs to.
  unfoldable pub home : Ht A V → Bytes → ℕ
  home ht key = st.hash key % length ht.buck

  -- The value that the table has for a key.
  unfoldable pub view : Ht A V → Bytes → Option V
  view ht key = lookup key (bucket_of ht (home ht key))

  pub home-lt : (ht : Ht A V) (key : Bytes) → 0 < length ht.buck → home ht key < length ht.buck
  unfolding home
  home-lt ht key h = omega arith

  pub index-home :
      (ht : Ht A V) (key : Bytes) → 0 < length ht.buck → index ht key ≡ done (home ht key)
  unfolding index home
  index-home ht key h =
      let e : length ht.buck ≡ suc (length ht.buck - 1) = omega arith in rw (e, index)

  bucket_of-set :
      (ht : Ht A V) (i j : ℕ) (b : Bucket V)
      → i < length ht.buck
      → bucket_of (record ht { buck = set ht.buck i b }) j ≡ (if i == j then b else bucket_of ht j)
  unfolding bucket_of
  bucket_of-set ht i j b h =
      ground (arith, get_elem?-set_self ht.buck i b, get_elem?-set_ne ht.buck i j b)

  -- A table whose home bucket of a key is replaced reads as before at the keys of other buckets.
  view-set :
      (ht : Ht A V) (i : ℕ) (b : Bucket V) (c : ℤ) (q : Bytes)
      → i < length ht.buck
      → view (record ht { collisions_count = c; buck = set ht.buck i b }) q
        ≡ (if i == home ht q then lookup q b else view ht q)
  unfolding view home bucket_of
  view-set ht i b c q h = rw (length-set ht.buck i b) (
      ground (
        arith,
        get_elem?-set_self ht.buck i b,
        get_elem?-set_ne ht.buck i (st.hash q % length ht.buck) b,
      ))

  home_congr : (ht : Ht A V) (k q : Bytes) → eq_key k q ≡ true → home ht k ≡ home ht q
  home_congr ht k q e = ap (home ht) ((eq_key_iff k q).0 e)

  -- What a successful `fra_p_ht_set` does: the first value of a key stays, and no other key is touched.
  pub record Puts (ht : Ht A V) (key : Bytes) (v : V) (r : Rc × Ht A V) : Type 0 where
    pub code : r.0 ≡ ok
    pub width : length r.1.buck ≡ length ht.buck
    pub setter : r.1.set_value ≡ ht.set_value
    pub reads :
        (q : Bytes) → view r.1 q ≡ or_else (view ht q) (if eq_key key q then some v else none)

  insert-reads :
      ⦃fl : Floats⦄ (ht : Ht A V) (key q : Bytes) (v : V)
      → 0 < length ht.buck
      → view (insert ht (home ht key) key (some v)).1 q
        ≡ or_else (view ht q) (if eq_key key q then some v else none)
  unfolding insert view
  insert-reads ⦃fl⦄ ht key q v h = rw (view-set ht (home ht key) _ _ q (home-lt ht key h)) (
      ground (
        arith,
        home_congr ht key q,
        lookup-append q key v (bucket_of ht (home ht key)),
        or_else-none (view ht q),
      ))

  -- With memory, and a value that `set_value` makes, `fra_p_ht_set` at a table with buckets succeeds.
  -- Afterwards the key has that value, unless it had one before; other keys, the number of buckets and
  -- the callback are as before.
  pub put-Puts :
      ⦃fl : Floats⦄ (ht : Ht A V) (key : Bytes) (arg : A) (v : V)
      → 0 < length ht.buck
      → ht.set_value arg ≡ some v
      → Returns (put true true ht key arg) (Puts ht key v)
  unfolding put
  put-Puts ht key arg v h e = (
    insert ht (home ht key) key (some v),
    rw (index-home ht key h, e),
    record {
      code = unfold insert in refl;
      width = unfold insert in length-set ht.buck _ _;
      setter = unfold insert in refl;
      reads = λ q. insert-reads ht key q v h;
    },
  )

  -- In a table with buckets, `fra_p_ht_get` returns a pointer to the value that the table has for
  -- the key, or NULL if it has none.
  pub get-view :
      (ht : Ht A V) (key : Bytes)
      → 0 < length ht.buck
      → Returns (get ht key) λ r.
        ((r ≡ none) × (view ht key ≡ none))
        ⊎ ((p : Ptr) × (v : V) × (r ≡ some p) × (deref ht p ≡ some v) × (view ht key ≡ some v))
  unfolding get get_by_hash view deref
  get-view ht key h = elim (find-lookup key (bucket_of ht (home ht key))) [
    | inl (f, l) ↦ (none, rw (index-home ht key h, f, ◌>>=◌), inl (refl, l))
    | inr (j, v, f, l, e) ↦ (
      some (record { bucket = home ht key; element = j }),
      rw (index-home ht key h, f, ◌>>=◌),
      inr (record { bucket = home ht key; element = j }, v, refl, e, l),
    )
  ]

  -- A write through a pointer that `fra_p_ht_get` returned for a key, in a table with buckets,
  -- changes the value of that key alone.
  pub view-store :
      (ht : Ht A V) (key q : Bytes) (p : Ptr) (w : V)
      → 0 < length ht.buck
      → get ht key ≡ done (some p)
      → view (store ht p w) q ≡ (if eq_key key q then some w else view ht q)
  unfolding get get_by_hash store view
  view-store ht key q p w h e =
      let i = index-home ht key h in
      ground (
        arith,
        index-home ht key h,
        find-lookup key (bucket_of ht (home ht key)),
        home_congr ht key q,
        view-set ht (home ht key) (assign_at (bucket_of ht (home ht key)) p.element w)
            ht.collisions_count q (home-lt ht key h),
        lookup-assign_at q key p.element w (bucket_of ht (home ht key)),
      )

  -- `fra_p_ht_set` at a table with buckets that lacks memory, or whose `set_value` fails, returns
  -- -1 and changes nothing.
  pub put-failed :
      ⦃fl : Floats⦄ (key_alloc grown : Bool) (ht : Ht A V) (key : Bytes) (arg : A)
      → 0 < length ht.buck
      → (key_alloc && grown ≡ false) ⊎ (ht.set_value arg ≡ none)
      → put key_alloc grown ht key arg ≡ done (failed, ht)
  unfolding put insert
  put-failed false grown ht key arg h e = refl
  put-failed true false ht key arg h e = rw (index-home ht key h)
  put-failed true true ht key arg h (inl e) = cc
  put-failed true true ht key arg h (inr e) = rw (index-home ht key h, e, insert)
