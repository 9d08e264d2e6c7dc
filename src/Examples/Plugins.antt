-- ===== src/Examples/Plugins.antt =====
-- Plugins at concrete values.
use fast_cgi_rest_api.Common.{
  ℕ, suc, ◌≡◌, refl, none, some, List, [], ◌∷◌, ok, failed, done, fault, length, ◌==◌,
  if◌then◌else◌,
}
use fast_cgi_rest_api.Pl.{Plugin, unset, Dl, pl_load, load_one, pl_unload}
use fast_cgi_rest_api.Pl.Lifecycle.{Loads, pl_load-Loads}
use fast_cgi_rest_api.Pl.Unload.{Opens, close_each, pl_unload-pl_load, pl_unload-failed}

-- A linker that numbers the libraries, finds each function but the one named 0, and counts the closed
-- ones.
abbrev dl : Dl ℕ
dl = record {
  dlopen = λ name w. (some w, suc w);
  dlsym = λ h f w. (elim f [ [] ↦ none | c ∷ rest ↦ if c == 0 then none else some c ], w);
  call = λ f argv w. (ok, w);
  dlclose = λ h w. (ok, suc w);
}

abbrev good : Plugin
good = record { name = 97 ∷ []; argv = (105 ∷ []) ∷ []; h = unset }

abbrev bad : Plugin
bad = record { name = 98 ∷ []; argv = []; h = unset }

pl_load-Loads_example :
    let r = pl_load dl (good ∷ bad ∷ good ∷ []) 0 in Loads dl (good ∷ bad ∷ good ∷ []) 0 r.0 r.1 r.2
pl_load-Loads_example = pl_load-Loads dl (good ∷ bad ∷ good ∷ []) 0

loads_two : (pl_load dl (good ∷ good ∷ []) 0).0 ≡ ok
unfolding pl_load
loads_two = refl

pl_unload-pl_load_example :
    let r = pl_load dl (good ∷ good ∷ []) 0 in
    (hs : List ℕ) × Opens dl (good ∷ good ∷ []) 0 hs
    × (length hs ≡ 2)
    × (pl_unload dl r.1 9
        ≡ done
            (let closed = close_each dl hs 0 9 in (if closed.0 == 0 then ok else failed, closed.1)))
pl_unload-pl_load_example = pl_unload-pl_load dl (good ∷ good ∷ []) 0 9 loads_two

loads_one : (pl_load dl (good ∷ []) 0).0 ≡ ok
unfolding pl_load
loads_one = refl

bad_fails : (load_one dl bad (pl_load dl (good ∷ []) 0).2).0 ≡ failed
unfolding pl_load load_one
bad_fails = refl

pl_unload-failed_example :
    let r = pl_load dl (good ∷ bad ∷ good ∷ []) 0 in (r.0 ≡ failed) × (pl_unload dl r.1 9 ≡ fault)
pl_unload-failed_example = pl_unload-failed dl (good ∷ []) bad good [] 0 9 loads_one bad_fails refl
