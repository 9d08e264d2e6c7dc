-- ===== src/Examples/Tables.antt =====
-- The hash table and the urls at concrete values.
use fast_cgi_rest_api.Common.{
  ℕ, ◌≡◌, refl, true, false, ◌&&◌, none, some, List, [], ◌∷◌, arith, ltb, ok, done, Returns,
}
use fast_cgi_rest_api.Common.Int.{pos}
use fast_cgi_rest_api.Common.Sys.{Bytes}
use fast_cgi_rest_api.Ht
use fast_cgi_rest_api.Ht.Client.{Call, set, get, assign, run, replay, run-replay}
use fast_cgi_rest_api.Ht.{Ht, Ptr, put, get_by_hash, deref, store, free}
use fast_cgi_rest_api.Ht.View.{view}
use fast_cgi_rest_api.Ht.Elements.{free-insert}
use fast_cgi_rest_api.Url
use fast_cgi_rest_api.Url.Routes.{IsTable, Entered, allocated, add-Entered}
use fast_cgi_rest_api.Url.FirstRoute.{add_all, plenty, first_route}
use fast_cgi_rest_api.Url.Startup.{to_endpoint-add_all-init}
use fast_cgi_rest_api.Examples.{strings, floats}
use mathlib.Core.List.{Perm}

-- Two buckets; the keys 2 and 4 share one.
abbrev two_buckets : Ht ℕ ℕ
two_buckets = record {
  set_value = some;
  collisions_count = pos 0;
  buck = (((2 ∷ []), 20) ∷ []) ∷ [] ∷ [];
}

-- A value, another value for the same key, a look at it, and a write through the pointer.
abbrev calls : List (Call ℕ ℕ)
calls =
    set true true (2 ∷ []) 20
    ∷ set true true (2 ∷ []) 30
    ∷ get (2 ∷ [])
    ∷ assign (2 ∷ []) 21
    ∷ get (4 ∷ [])
    ∷ []

run-replay_example :
    (ht : Ht ℕ ℕ) × (Ht.new true true 2 some ≡ some ht)
    × (Returns (run calls ht) λ r.
        (r.0 ≡ (replay some calls (λ q. none)).0) × (view r.1 ≡ (replay some calls (λ q. none)).1))
run-replay_example = run-replay 2 some calls (omega arith)

free-insert_example :
    Returns
      (put true true two_buckets (4 ∷ []) 40)
      λ r. Perm (free (some r.1)) ((4 ∷ [], 40) ∷ free (some two_buckets))
free-insert_example = free-insert two_buckets (4 ∷ []) 40 40 (omega arith) refl

-- Two registrations for one url and verb, and one for another verb.
abbrev registrations : List (ℕ × Bytes × Bytes)
registrations = (0, 71 ∷ [], 47 ∷ []) ∷ (1, 71 ∷ [], 47 ∷ []) ∷ (2, 80 ∷ [], 47 ∷ []) ∷ []

to_endpoint-add_all-init_example :
    (t : Url.Table) × (Url.init false 0 true true ≡ (ok, some t))
    × Returns (add_all plenty t registrations) λ r.
      (r.0 ≡ ok) × ((v u : Bytes) → Url.to_endpoint r.1 v u ≡ done (first_route registrations v u))
to_endpoint-add_all-init_example =
    to_endpoint-add_all-init 0 registrations (omega arith, (omega arith, (omega arith, _)))

-- The table of `fra_p_url_ht_get` with one bucket.
abbrev urls : Url.Table
urls = record { set_value = Url.set_url; collisions_count = pos 0; buck = [] ∷ [] }

abbrev urls-IsTable : IsTable urls
urls-IsTable = record { width = omega arith; setter = λ a. refl }

add-Entered_example :
    Entered
      (plenty.verb && (ltb 1 512 && allocated plenty (view urls (47 ∷ []))))
      urls
      3
      (71 ∷ [])
      (47 ∷ [])
      (Url.add plenty urls 3 (71 ∷ []) (47 ∷ []))
add-Entered_example = add-Entered plenty urls 3 (71 ∷ []) (47 ∷ []) urls-IsTable

-- `EAGAIN`
abbrev no_resources : ℕ
no_resources = 11
