-- ===== src/Examples/Serving.antt =====
-- The server at concrete values.
use fast_cgi_rest_api.Common.{
  ℕ, zero, suc, ◌+◌, ◌≤◌, ◌≡◌, refl, subst, Bool, true, false, none, some, List, [], ◌∷◌, arith,
  get_elem?, length, Returns,
}
use fast_cgi_rest_api.Common.Blocks.{is_live}
use fast_cgi_rest_api.End.{End}
use fast_cgi_rest_api.Hook.{req_created}
use fast_cgi_rest_api.Poll
use fast_cgi_rest_api.Poll.{Entry, poll_init}
use fast_cgi_rest_api.Req.State.{Req, State, Input}
use fast_cgi_rest_api.Server.{receive_each}
use fast_cgi_rest_api.Server.Sequence.{
  Served, IsServing, Supplies, Connects, Creates, receive_each-Served,
}
use fast_cgi_rest_api.Examples.{strings, floats}
use fast_cgi_rest_api.Examples.Handling.{idle, input, request, callbacks, idle-IsIdle, no_hooks-ok}

-- An address above all blocks of the endpoints.
total : List ℕ → ℕ
total [] = 0
total (a ∷ l) = suc a + total l

pub above : List End → ℕ
above [] = 0
above (e ∷ ends) = total e.pool.live + above ends

is_live-total : (b : ℕ) (l : List ℕ) → total l ≤ b → is_live b l ≡ false
unfolding is_live total
is_live-total b [] h = refl
is_live-total b (a ∷ l) h = ground (arith, is_live-total b l)

total-above :
    (ends : List End) (i : ℕ) (e : End) → get_elem? ends i ≡ some e → total e.pool.live ≤ above ends
unfolding above
total-above [] i e h = cc
total-above (d ∷ ends) zero e h =
    let same : d ≡ e = cc in
    subst (λ (x : End). total x.pool.live ≤ above (d ∷ ends)) same (omega arith)
total-above (d ∷ ends) (suc i) e h = omega (arith, total-above ends i e h)

-- One request after another, each with a new block if one is made.
unfoldable pub outside : State ℕ → Input
outside s = record input { block = some (above s.ends) }

pub outside-Supplies : (s : State ℕ) → Supplies callbacks outside s
unfolding outside
outside-Supplies s = record {
  block = above s.ends;
  memory = refl;
  fresh = λ i e at. is_live-total (above s.ends) e.pool.live (total-above s.ends i e at);
  request = λ r e. let same : request ≡ r = cc in subst (λ (x : Req). x.endpoint ≡ none) same refl;
}

pub outside-Connects : (s : State ℕ) → Connects callbacks outside s
unfolding outside
outside-Connects s = record {
  supplies = outside-Supplies s;
  accepts = refl;
  turned_accepts = refl;
  stocked = λ e. (request, refl);
}

idle-Creates : Creates callbacks outside idle.req_hooks
unfolding Creates
idle-Creates addr w = no_hooks-ok addr req_created w

idle-IsServing : IsServing callbacks outside idle
idle-IsServing = record {
  settled = idle-IsIdle.settled;
  wired = record {
    table = idle-IsIdle.ready.table;
    created = idle-IsIdle.ready.created;
    leads = idle-IsIdle.leads;
  };
}

receive_each-Served_example :
    Returns
      (receive_each callbacks outside (1 ∷ 0 ∷ 1 ∷ []) idle)
      λ r. (length r.0 ≡ 3) × Served callbacks outside idle r.0 r.1
receive_each-Served_example =
    receive_each-Served callbacks outside (1 ∷ 0 ∷ 1 ∷ []) idle idle-IsServing outside-Connects
      idle-Creates

-- Another descriptor, whose callback counts.
abbrev counts : Entry → ℕ → ℕ → ℕ
counts e r n = suc n

abbrev never : State ℕ → Bool
never s = false

abbrev polled : Poll.State
polled = record {
  initialized = true;
  entries =
      record { fd = 0; events = 1; req = none; cb = 10 }
      ∷ record { fd = 7; events = 1; req = none; cb = 20 }
      ∷ [];
  main_poll_max_len = 10;
  poll_bytes = 80;
  callback_bytes = 160;
  locked = false;
  should_stop = false;
}
