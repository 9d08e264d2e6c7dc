-- ===== src/Ht.antt =====
-- src/ht.c: the chained hash table. A bucket is an array of pairs of a key and a value, so a pointer
-- into the table is a bucket's index and a position in it. `value_size` and the byte layout of an
-- element are left out: an element holds a value of type `V`.
pub mod Chain
pub mod View
pub mod Elements
pub mod Fresh
pub mod Client
use Chain.{Bucket, find, entry_at, assign_at}
use fast_cgi_rest_api.Common.{
  ℕ, zero, suc, ◌+◌, ◌%◌, Bool, true, false, Option, none, some, List, [], ◌∷◌, ◌++◌, flatten, Rc,
  ok, failed, Run, done, fault, ◌>>=◌, length, get_elem?, set, replicate, ltb, if◌then◌else◌,
}
use fast_cgi_rest_api.Common.Int.{ℤ, pos, negsuc, succ, above}
use fast_cgi_rest_api.Common.Sys.{Bytes, Strings, Floats}

-- `set_value` copies the argument of a registration into an element; `none` is a non-zero code.
-- `buck_c` is the length of `buck`, and a bucket's `el_c` is its length.
pub record Ht (A V : Type 0) : Type 0 where
  pub set_value : A → Option V
  pub collisions_count : ℤ
  pub buck : List (Bucket V)

-- a value's place: the bucket and the element
pub record Ptr : Type 0 where
  pub bucket : ℕ
  pub element : ℕ

abbrev pub int_min : ℤ
int_min = negsuc 0x7fff_ffff

-- The two flags tell whether `malloc` and `calloc` succeed.
unfoldable pub new : {A V : Type 0} → Bool → Bool → ℕ → (A → Option V) → Option (Ht A V)
new false _ bucket_count set_value = none
new true false bucket_count set_value = none
new true true bucket_count set_value =
    some
      (record { set_value = set_value; collisions_count = pos 0; buck = replicate bucket_count [] })

-- The elements that `bdestroy` and the destructor are called on, in that order.
unfoldable pub free : {A V : Type 0} → Option (Ht A V) → List (Bytes × V)
free none = []
free (some ht) = flatten ht.buck

-- The end of `fra_p_ht_set`, at a bucket that holds `el_c` elements after the insertion. The second
-- part tells whether the warning is logged.
unfoldable pub count_collision : ⦃fl : Floats⦄ → ℕ → ℕ → ℤ → ℤ × Bool
count_collision ⦃fl⦄ buck_c el_c collisions_count =
    let count = if ltb 1 el_c then succ collisions_count else collisions_count in
    if above count (fl.tenth buck_c) then (int_min, true) else (count, false)

module _ {A V : Type 0} where
  unfoldable pub bucket_of : Ht A V → ℕ → Bucket V
  bucket_of ht i = elim (get_elem? ht.buck i) [ none ↦ [] | some b ↦ b ]

  -- What `fra_p_ht_set` does once `bfromcstr` and `realloc` have succeeded.
  unfoldable pub insert : ⦃fl : Floats⦄ → Ht A V → ℕ → Bytes → Option V → Rc × Ht A V
  insert ht i key none = (failed, ht)
  insert ht i key (some v) =
      let b = bucket_of ht i ++ (key, v) ∷ [] in
      (
        ok,
        record ht {
          collisions_count = (count_collision (length ht.buck) (length b) ht.collisions_count).0;
          buck = set ht.buck i b;
        },
      )

  -- `*p`, and a write through a pointer that a lookup returned
  unfoldable pub deref : Ht A V → Ptr → Option V
  unfolding bucket_of
  deref ht p = entry_at (bucket_of ht p.bucket) p.element

  unfoldable pub store : Ht A V → Ptr → V → Ht A V
  unfolding bucket_of
  store ht p v = record ht {
    buck = set ht.buck p.bucket (assign_at (bucket_of ht p.bucket) p.element v);
  }

module _ {A V : Type 0} ⦃st : Strings⦄ where
  -- `hash % ht->buck_c` as an unsigned index; a remainder by 0 is undefined.
  unfoldable pub index : Ht A V → Bytes → Run ℕ
  index ht key = elim (length ht.buck) [ zero ↦ fault | suc n ↦ done (st.hash key % suc n) ]

  -- The flags tell whether `bfromcstr` and `realloc` succeed.
  unfoldable pub put : ⦃fl : Floats⦄ → Bool → Bool → Ht A V → Bytes → A → Run (Rc × Ht A V)
  unfolding index insert
  put false _ ht key arg = done (failed, ht)
  put true grown ht key arg = do
    i ← index ht key
    if grown then done (insert ht i key (ht.set_value arg)) else done (failed, ht)

  -- A caller that has no table gets NULL.
  unfoldable pub get_by_hash : Option (Ht A V) → Bytes → Run (Option Ptr)
  unfolding index bucket_of
  get_by_hash none key = done none
  get_by_hash (some ht) key = do
    i ← index ht key
    elim (find key (bucket_of ht i)) [
      | none ↦ done none
      | some j ↦ done (some (record { bucket = i; element = j }))
    ]

  unfoldable pub get : Ht A V → Bytes → Run (Option Ptr)
  get ht key = get_by_hash (some ht) key
