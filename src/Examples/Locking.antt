-- ===== src/Examples/Locking.antt =====
-- The pool of requests with its mutex, at concrete values.
use fast_cgi_rest_api.Common.{ℕ, ◌≡◌, refl, true, false, none, some, ok, failed, done, fault, ◌>>=◌}
use fast_cgi_rest_api.Req.State.{Req, State}
use fast_cgi_rest_api.Req.Handle.{get_req, take_req, req_maybe_free}
use fast_cgi_rest_api.Req.Locked.{
  Codes, working, get_req_locked, req_maybe_free_locked, req_maybe_free-held,
  req_maybe_free-working, get_req-unlocked,
}
use fast_cgi_rest_api.Req.Settled.{IsSettled}
use fast_cgi_rest_api.Examples.{strings, floats}
use fast_cgi_rest_api.Examples.Handling.{idle, request, callbacks, in_use, in_use-IsInFlight}

-- The mutex of an endpoint can not be locked.
abbrev stuck : Codes
stuck = record working { end_lock = failed }

req_maybe_free-held_example :
    (req_maybe_free_locked callbacks true stuck in_use (record request { endpoint = some 0 }) false
      ≡ done (failed, in_use, true))
    × (get_req_locked callbacks true working (some request) idle true ≡ fault)
    × (req_maybe_free_locked callbacks true working idle request true ≡ fault)
req_maybe_free-held_example =
    req_maybe_free-held callbacks stuck working in_use idle (record request { endpoint = some 0 })
      request (some request) 0 refl refl refl

req_maybe_free-working_example :
    (t : State ℕ) × (req' : Req) × (u : State ℕ) × IsSettled t
    × (req_maybe_free callbacks in_use request ≡ done (ok, t))
    × (req_maybe_free_locked callbacks true working in_use request false ≡ done (ok, t, false))
    × (get_req callbacks none t ≡ done (some req', u))
    × (get_req_locked callbacks true working none t false ≡ done (some req', u, false))
req_maybe_free-working_example =
    req_maybe_free-working callbacks in_use request none in_use-IsInFlight

get_req-unlocked_example :
    (get_req_locked callbacks false working none idle false ≡ (
      take_req callbacks none idle >>= λ r. elim r.0 [
        | none ↦ fault
        | some req ↦ done (some req, r.1, false)
      ]))
    × (get_req_locked callbacks false working none idle false
        ≡ (get_req callbacks none idle >>= λ r. done (r.0, r.1, false)))
get_req-unlocked_example = get_req-unlocked callbacks working idle none refl
