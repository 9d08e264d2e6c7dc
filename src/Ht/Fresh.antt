-- ===== src/Ht/Fresh.antt =====
-- What `fra_p_ht_new` makes.
use fast_cgi_rest_api.Common.{
  ℕ, ◌<◌, ◌≡◌, refl, true, Option, none, some, [], replicate, length, length-replicate, get_elem?,
  get_elem?-replicate,
}
use fast_cgi_rest_api.Common.Int.{pos}
use fast_cgi_rest_api.Common.Sys.{Bytes, Strings}
use fast_cgi_rest_api.Ht.{Ht, new, bucket_of}
use fast_cgi_rest_api.Ht.Chain.{Bucket, lookup}
use fast_cgi_rest_api.Ht.View.{home, home-lt, view}

-- A table with buckets and the given callback that has no key.
pub record IsFresh {A V : Type 0} ⦃st : Strings⦄ (set_value : A → Option V) (ht : Ht A V)
    : Type 0 where
  pub width : 0 < length ht.buck
  pub setter : ht.set_value ≡ set_value
  pub reads : (q : Bytes) → view ht q ≡ none

pub lookup_empty :
    {A V : Type 0} ⦃st : Strings⦄ (ht : Ht A V) (i : ℕ) (q : Bytes)
    → get_elem? ht.buck i ≡ some []
    → lookup q (bucket_of ht i) ≡ none
unfolding bucket_of lookup
lookup_empty ht i q e = rw (bucket_of, e)

pub new-IsFresh :
    {A V : Type 0} ⦃st : Strings⦄ (count : ℕ) (set_value : A → Option V)
    → 0 < count
    → (ht : Ht A V) × (new true true count set_value ≡ some ht) × IsFresh set_value ht
unfolding new view
new-IsFresh {A} {V} ⦃st⦄ count set_value h =
    let ht : Ht A V = record {
      set_value = set_value;
      collisions_count = pos 0;
      buck = replicate count [];
    } in
    let width : 0 < length ht.buck = rw length-replicate h in
    (
      ht,
      refl,
      record {
        width = width;
        setter = refl;
        reads = λ q. lookup_empty ht (home ht q) q (
            get_elem?-replicate {A = Bucket V} count (home ht q) []
              (rw length-replicate at (home-lt ht q width)));
      },
    )
