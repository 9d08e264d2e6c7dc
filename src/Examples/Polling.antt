-- ===== src/Examples/Polling.antt =====
-- Descriptors at concrete values.
use fast_cgi_rest_api.Common.{
  ℕ, suc, some, List, subst, length, ◌≡◌, refl, true, false, none, [], ◌∷◌, ok, done, fault,
}
use fast_cgi_rest_api.Poll.{Entry, State, poll_init, fd_add}
use fast_cgi_rest_api.Poll.Descriptors.{plenty, starting, fd_add-poll_init}
use fast_cgi_rest_api.Poll.Loop.{Action, stop, Round, Outcome, glob_poll, glob_poll_stop}
use fast_cgi_rest_api.Poll.Refinement.{
  IsQuiet, IsFull, Implements, abstract_poll, glob_poll-Implements,
}
use fast_cgi_rest_api.Poll.Held.{glob_poll-returned}
use fast_cgi_rest_api.Examples.{floats}

abbrev entry : Entry
entry = record { fd = 7; events = 1; req = none; cb = 20 }

fd_add-poll_init_example :
    (s t : State) × (poll_init ok ok true true plenty starting 10 ≡ done (ok, s))
    × (fd_add plenty s entry ≡ done (ok, t))
    × (fd_add plenty t entry ≡ fault)
fd_add-poll_init_example = fd_add-poll_init 10 entry entry

-- Arrays of ten indices with room for all.
abbrev wide : State
wide = record {
  initialized = true;
  entries = entry ∷ [];
  main_poll_max_len = 10;
  poll_bytes = 80;
  callback_bytes = 160;
  locked = false;
  should_stop = false;
}

-- A callback that counts its calls and stops the loop.
abbrev stopper : Entry → ℕ → ℕ → ℕ × List Action
stopper e revents n = (suc n, stop ∷ [])

stopper-IsQuiet : IsQuiet stopper
stopper-IsQuiet e revents n = (tt, _)

abbrev one_round : Round
one_round = record { revents = some (1 ∷ []); unlocked = ok; locked = ok }

one_round-IsFull : IsFull (entry ∷ []) one_round
one_round-IsFull revents e =
    let same : 1 ∷ [] ≡ revents = cc in subst (λ (l : List ℕ). length l ≡ 1) same refl

glob_poll-Implements_example :
    Implements stopper
      (entry ∷ [])
      (abstract_poll stopper (entry ∷ []) (one_round ∷ []) 0)
      (glob_poll stopper ok (one_round ∷ []) wide 0)
glob_poll-Implements_example =
    glob_poll-Implements stopper (one_round ∷ []) wide 0 stopper-IsQuiet (one_round-IsFull, _) refl
      refl

abbrev after : State
after = record wide { locked = true; should_stop = true }

glob_poll-stopper :
    glob_poll stopper ok (one_round ∷ []) wide 0 ≡ done (Outcome.returned ok after 1)
unfolding glob_poll glob_poll_stop
glob_poll-stopper = refl

glob_poll-returned_example :
    (fd_add plenty after entry ≡ fault) × (glob_poll stopper ok [] after 1 ≡ fault)
glob_poll-returned_example =
    glob_poll-returned stopper (one_round ∷ []) [] wide after 0 1 plenty entry glob_poll-stopper
      refl
