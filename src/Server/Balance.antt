-- ===== src/Server/Balance.antt =====
-- The calls of the fcgi library in a whole run of the server: what is opened is closed.
use fast_cgi_rest_api.Common.{
  ℕ, suc, ◌+◌, ◌≤◌, ◌≡◌, Bool, true, false, List, [], ◌∷◌, length, Rc, ok, failed, if◌then◌else◌,
}
use fast_cgi_rest_api.Req.State.{
  Event, init_request, accepted, go_away, finish, turned_away, handled, State,
}
use fast_cgi_rest_api.Req.Answer.{Answer}
use fast_cgi_rest_api.Server.Sequence.{answered}

-- How many of them satisfy a test.
unfoldable pub tally : {A : Type 0} → (A → Bool) → List A → ℕ
tally test [] = 0
tally test (x ∷ l) = let rest = tally test l in if test x then suc rest else rest

abbrev pub is_opened : Event → Bool
is_opened init_request = true
is_opened accepted = false
is_opened go_away = false
is_opened finish = false
is_opened turned_away = false
is_opened (handled i) = false

abbrev pub is_finished : Event → Bool
is_finished init_request = false
is_finished accepted = false
is_finished go_away = false
is_finished finish = true
is_finished turned_away = false
is_finished (handled i) = false

abbrev pub is_turned_away : Event → Bool
is_turned_away init_request = false
is_turned_away accepted = false
is_turned_away go_away = false
is_turned_away finish = false
is_turned_away turned_away = true
is_turned_away (handled i) = false

abbrev pub is_handled : Event → Bool
is_handled init_request = false
is_handled accepted = false
is_handled go_away = false
is_handled finish = false
is_handled turned_away = false
is_handled (handled i) = true

abbrev pub is_ok : Rc → Bool
is_ok ok = true
is_ok failed = false

-- Every connection that is initialised is finished; a call of the handler initialises one or turns one
-- away; and a callback of an endpoint runs at most once in each call that returns 0.
pub record Balanced (rcs : List Rc) (es : List Event) : Type 0 where
  pub finished : tally is_finished es ≡ tally is_opened es
  pub answered : tally is_opened es + tally is_turned_away es ≡ length rcs
  pub handled : tally is_handled es ≤ tally is_ok rcs
