-- ===== src/Examples/Demos.antt =====
-- The example server at concrete addresses and priorities.
use fast_cgi_rest_api.Common.{ℕ, ◌≡◌, refl, some, [], ◌∷◌, Rc, ok, Returns}
use fast_cgi_rest_api.Common.Int.{pos}
use fast_cgi_rest_api.Req.State.{State, Input, init_request, accepted, handled, finish}
use fast_cgi_rest_api.Req.Settled.{Ends}
use fast_cgi_rest_api.Server.{receive}
use fast_cgi_rest_api.Demo.Obliges.{Polite}
use fast_cgi_rest_api.Demo.Answers.{Asks, say_hello, receive-handled}
use fast_cgi_rest_api.Server.Sequence.{IsServing, Supplies, nothing-Served}
use fast_cgi_rest_api.Server.Turns.{listening}
use fast_cgi_rest_api.Demo.{Program, App, main, serving, get, say_hello_url}
use fast_cgi_rest_api.Demo.Calls.{enough}
use fast_cgi_rest_api.Demo.Setup.{IsSetUp}
use fast_cgi_rest_api.Demo.Main.{unstarted, all_well, main-IsServing}
use fast_cgi_rest_api.Demo.Loop.{Runs, server-Served}
use fast_cgi_rest_api.Examples.{strings, floats}
use fast_cgi_rest_api.Examples.Handling.{callbacks, polite_callbacks, request}
use fast_cgi_rest_api.Examples.Serving.{outside, outside-Supplies, outside-Connects}

abbrev program : Program
program = record {
  hello_world = 1;
  hello_world2 = 2;
  hello_world3 = 3;
  hello_world4 = 4;
  hello_world5 = 5;
  handle = 6;
  say_bye = 7;
  handle_new = 8;
  hello_world_set = refl;
  hello_world2_set = refl;
  hello_world3_set = refl;
  hello_world4_set = refl;
  hello_world5_set = refl;
  handle_set = refl;
  say_bye_set = refl;
  f0_1 = pos 100;
  f5343_3 = pos 5343300;
  f543_3 = pos 543300;
  f0_099 = pos 99;
  lt_tenth = refl;
  lt_thousands = refl;
}

main-IsServing_example : Returns (main all_well (λ n. enough) program unstarted) λ r.
    (r.0 ≡ ok)
    × (a : App) × (r.1 ≡ some (listening program.handle_new, a))
    × IsSetUp program a
    × ((W : Type 0) (call : ℕ → ℕ → W → Rc × W) (outside : State W → Input) (w : W)
        → IsServing call outside (serving a w))
main-IsServing_example = main-IsServing program

server-Served_example : Runs program callbacks outside (1 ∷ 1 ∷ []) 0
server-Served_example =
    server-Served program callbacks outside (1 ∷ 1 ∷ []) 0 (refl, (refl, _)) outside-Connects

-- What the example's `main` makes, and a connection for `GET` and `/say/hello`.
app : App
app = (main-IsServing program).2.1

app-IsSetUp : IsSetUp program app
unfolding app
app-IsSetUp = (main-IsServing program).2.3

asking : State ℕ → Input
asking s = record (outside s) { method = some get; uri = some say_hello_url }

app-IsServing : IsServing callbacks asking (serving app 0)
unfolding app
app-IsServing = (main-IsServing program).2.4 ℕ callbacks asking 0

asking-Supplies : (s : State ℕ) → Supplies callbacks asking s
unfolding asking
asking-Supplies s =
    let m = outside-Supplies s in
    record { block = m.block; memory = m.memory; fresh = m.fresh; request = m.request }

callbacks-Polite : Polite callbacks
callbacks-Polite addr cb w = polite_callbacks addr cb w

asking-Asks : (s : State ℕ) → Asks (asking s) say_hello_url
unfolding asking outside
asking-Asks s = record { accepts = refl; method = refl; uri = refl; req = request; request = refl }

receive-handled_example :
    Ends callbacks ok
      (init_request ∷ accepted ∷ handled 0 ∷ finish ∷ [])
      (receive callbacks asking 1 (serving app 0))
receive-handled_example =
    receive-handled program callbacks asking 1 0 say_hello_url app 0 [] (serving app 0) app-IsSetUp
      (nothing-Served callbacks asking (serving app 0) app-IsServing)
      (asking-Supplies (serving app 0)) callbacks-Polite refl say_hello
      (asking-Asks (serving app 0))
