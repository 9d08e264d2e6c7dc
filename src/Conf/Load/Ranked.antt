-- ===== src/Conf/Load/Ranked.antt =====
-- `conf_load_recurse` at files that do not include each other in a cycle: enough fuel, and what the fuel
-- is worth.
use fast_cgi_rest_api.Common.{
  ℕ, zero, suc, ◌<◌, ◌≡◌, ◌≢◌, refl, inl, inr, arith, failed, All, All-map, Rc-cases,
}
use fast_cgi_rest_api.Common.Sys.{Bytes, Strings}
use fast_cgi_rest_api.Conf.Values.{State, set_defaults}
use fast_cgi_rest_api.Conf.Env.{Env, confs, spent}
use fast_cgi_rest_api.Conf.Load.{conf_load_recurse, conf_load}
use fast_cgi_rest_api.Conf.Load.Included.{included}
use fast_cgi_rest_api.Conf.Load.Agree.{Agree, ended-Agree, AgreeAt, load_body-Agree}

pub conf_load_recurse-Agree :
    ⦃st : Strings⦄
    → (env : Env) (rank : Bytes → ℕ) → ((f : Bytes) → All (λ g. rank g < rank f) (included env f))
    → (fuel more : ℕ) (filename : Bytes) (s : State) → rank filename < fuel
    → rank filename < more
    → Agree (conf_load_recurse env fuel filename s) (conf_load_recurse env more filename s)
unfolding conf_load_recurse AgreeAt
conf_load_recurse-Agree env rank falls zero more filename s h h' = absurd (omega (arith, h))
conf_load_recurse-Agree env rank falls (suc fuel) zero filename s h h' = absurd (omega (arith, h'))
conf_load_recurse-Agree env rank falls (suc fuel) (suc more) filename s h h' =
    load_body-Agree env (conf_load_recurse env fuel) (conf_load_recurse env more) filename s (
      All-map
        (λ g lower t.
          conf_load_recurse-Agree env rank falls fuel more g t (omega (arith, h, lower))
            (omega (arith, h', lower)))
        (included env filename) (falls filename))

-- Loading a configuration where a rank falls from each file to every file that it includes, by name or by
-- its directory. With more fuel than the rank of the first file, the run does not run out of it, and any
-- other such fuel gives the same end and the same state.
pub conf_load-fuel :
    ⦃st : Strings⦄
    → (env : Env) (rank : Bytes → ℕ) → ((f : Bytes) → All (λ g. rank g < rank f) (included env f))
    → (fuel more : ℕ) (filename : Bytes) (s : State) → rank filename < fuel
    → rank filename < more
    → (conf_load env fuel filename s ≢ spent)
      × (conf_load env fuel filename s ≡ conf_load env more filename s)
unfolding conf_load Agree
conf_load-fuel env rank falls fuel more filename s h h' = elim (Rc-cases (set_defaults confs s).0) [
  | inr e ↦ rw (conf_load, e) ((ended-Agree failed _).1, refl)
  | inl e ↦
      let (same, found) =
        conf_load_recurse-Agree env rank falls fuel more filename (set_defaults confs s).1 h h' in
      rw (conf_load, e) (found, same)
]
