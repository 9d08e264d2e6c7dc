-- ===== src/Examples/Restarting.antt =====
-- The start and the stop of the library at concrete values.
use fast_cgi_rest_api.Common.{
  ℕ, suc, ◌≡◌, refl, true, false, none, some, [], ◌∷◌, Rc, ok, failed, done, flatten,
}
use fast_cgi_rest_api.Common.Int.{pos}
use fast_cgi_rest_api.Glob.{Lib, Inits, Freed, glob_init, glob_deinit}
use fast_cgi_rest_api.Glob.Restart.{IsStarted, glob_deinit-IsStarted}
use fast_cgi_rest_api.Hook.{Table}
use fast_cgi_rest_api.Poll.Descriptors.{plenty, starting}
use fast_cgi_rest_api.Req.State.{Req}
use fast_cgi_rest_api.Examples.Handling.{urls}
use fast_cgi_rest_api.Examples.{floats}

-- A hook for incoming requests, and two hooks of one type for all requests.
abbrev globs : Table
globs = (record { callback = 3; priority = pos 1 } ∷ []) ∷ []

abbrev reqs : Table
reqs =
    []
    ∷ (record { callback = 4; priority = pos 1 } ∷ record { callback = 5; priority = pos 2 } ∷ [])
    ∷ []
    ∷ []
    ∷ []
    ∷ []
    ∷ []
    ∷ []

abbrev pooled : Req
pooled = record { addr = 700; fcgx_defined = false; endpoint = none; endpoint_store = none }

abbrev started : Lib
started = record {
  poll = record starting { initialized = true };
  hooks = some (globs, reqs);
  vars = none;
  empty_req = pooled ∷ [];
  urls = some urls;
}

started-IsStarted : IsStarted started globs reqs
started-IsStarted = record {
  initialized = refl;
  unlocked = refl;
  hooks = refl;
  globs = refl;
  reqs = refl;
}

abbrev all_well : Inits
all_well = record {
  lock = ok;
  unlocked = ok;
  poll = true;
  callbacks = true;
  fd_add = plenty;
  glob_hooks = true;
  req_hooks = true;
  vars = true;
  vars_buck = true;
  fcgx = ok;
  urls = true;
  urls_buck = true;
}

-- A callback that counts its calls.
abbrev count : ℕ → ℕ → ℕ → Rc × ℕ
count addr callback n = (ok, suc n)

glob_deinit-IsStarted_example :
    (freed : Freed) × (l' : Lib) × (w' : ℕ) × (glob_deinit count started 0 ≡ done (freed, l', w'))
    × (freed.requests ≡ 700 ∷ [])
    × (freed.hooks ≡ (flatten globs, flatten reqs))
    × (freed.urls ≡ flatten urls.buck)
    × (freed.vars ≡ [])
    × (l'.urls ≡ none)
    × (l'.empty_req ≡ [])
    × (glob_init all_well 10 l' ≡ done (failed, l'))
glob_deinit-IsStarted_example =
    glob_deinit-IsStarted count started 0 all_well 10 globs reqs started-IsStarted
