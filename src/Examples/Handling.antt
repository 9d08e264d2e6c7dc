-- ===== src/Examples/Handling.antt =====
-- A request from its url to its answer, at concrete values.
use fast_cgi_rest_api.Common.{
  replicate, length, ◌<◌, ℕ, zero, suc, ◌≡◌, refl, inl, true, false, none, some, [], ◌∷◌, arith,
  subst, get_elem?, Rc, ok,
}
use fast_cgi_rest_api.Common.Int.{pos}
use fast_cgi_rest_api.Common.Sys.{Bytes}
use fast_cgi_rest_api.Hook.{
  HookType, req_created, end_store_created, req_before_fcgx, req_before_endpoint, req_new, req_free,
  end_store_free, glob_hook_execute, req_hook_execute, end_hook_execute, hook_execute, run_hooks,
}
use fast_cgi_rest_api.Ht.{bucket_of}
use fast_cgi_rest_api.Common.Blocks.{is_live}
use fast_cgi_rest_api.Ht.View.{home, home-lt, view}
use fast_cgi_rest_api.Ht.Chain.{lookup, eq_key}
use fast_cgi_rest_api.Url
use fast_cgi_rest_api.Url.{match_verb}
use fast_cgi_rest_api.Url.Routes.{match_chain, route}
use fast_cgi_rest_api.Var
use fast_cgi_rest_api.End.{End, empty_pool, end_hooks}
use fast_cgi_rest_api.End.Ownership.{empty_pool-IsOwned}
use fast_cgi_rest_api.Req.Params.{Urls, set_url, set_param, scan}
use fast_cgi_rest_api.Req.Split.{Splits, set_url-Splits, set_url-none}
use fast_cgi_rest_api.Req.State.{Req, State, Input, init_request, accepted, handled, finish}
use fast_cgi_rest_api.Req.Handled.{Leads, Serves, handle_new-handled}
use fast_cgi_rest_api.Req.Handle.{handle_new}
use fast_cgi_rest_api.Req.Settled.{IsInFlight, Ends}
use fast_cgi_rest_api.Req.Answer.{Answer, IsReady}
use fast_cgi_rest_api.Req.Total.{IsIdle}
use fast_cgi_rest_api.Examples.{strings, floats}
use fast_cgi_rest_api.Examples.Requests.{no_hooks, succeed}

-- `/a?b`
abbrev uri : Bytes
uri = 47 ∷ 97 ∷ 63 ∷ 98 ∷ []

set_url-Splits_example : (u : Urls) × (set_url (some uri) ≡ some u) × Splits uri u
set_url-Splits_example = set_url-Splits uri (omega arith)

-- Longer than the limit of 512 bytes by one.
abbrev too_long : Bytes
too_long = replicate 513 97

set_url-none_example : set_url (some too_long) ≡ none
set_url-none_example = set_url-none (some too_long) (λ p e.
    let same_bytes : too_long ≡ p = cc in
    subst (λ (q : Bytes). 512 < length q) same_bytes (omega arith))

-- One endpoint, for the verb `G` and the url `/a`.
abbrev pub endpoint : End
endpoint = record {
  store = record {
    map = record { set_value = Var.var_set; collisions_count = pos 0; buck = [] ∷ [] };
    size = 0;
  };
  pool = empty_pool;
  hooks = no_hooks;
  callback = 5;
}

abbrev pub urls : Url.Table
urls = record {
  set_value = Url.set_url;
  collisions_count = pos 0;
  buck = ((47 ∷ 97 ∷ [], record { first = record { verb = 71 ∷ []; e = 0 }; next = [] }) ∷ []) ∷ [];
}

abbrev pub idle : State ℕ
idle = record {
  glob_hooks = [] ∷ [];
  req_hooks = no_hooks;
  urls = urls;
  ends = endpoint ∷ [];
  empty_req = [];
  empty_count = 0;
  all_count = 0;
  events = [];
  world = 0;
}

abbrev pub request : Req
request = record { addr = 1000; fcgx_defined = false; endpoint = none; endpoint_store = none }

abbrev pub input : Input
input = record {
  pollin = true;
  accepts = true;
  turned_accepts = true;
  method = some (71 ∷ []);
  uri = some uri;
  request = some request;
  block = some 64;
}

found_0 :
    (v u : Bytes) (n i : ℕ) → n ≡ 0 → match_chain v (lookup u (bucket_of urls n)) ≡ some i → i ≡ 0
unfolding bucket_of lookup match_verb eq_key
found_0 v u zero i e h = ground (arith, h)
found_0 v u (suc n) i e h = ground (arith, e)

route_0 : (v u : Bytes) (i : ℕ) → route urls v u ≡ some i → i ≡ 0
unfolding route view
route_0 v u i h = found_0 v u (home urls u) i (omega (arith, home-lt urls u (omega arith))) h

pub only_endpoint : (i : ℕ) (e : End) → get_elem? (endpoint ∷ []) i ≡ some e → endpoint ≡ e
only_endpoint zero e h = cc
only_endpoint (suc i) e h = cc

created_ok : (addr : ℕ) (w : ℕ) → (end_hooks succeed no_hooks no_hooks end_store_created w).0 ≡ ok
unfolding req_hook_execute end_hook_execute hook_execute run_hooks
created_ok addr w = refl

pub callbacks : ℕ → ℕ → ℕ → Rc × ℕ
callbacks addr = succeed

pub polite_callbacks : (addr cb w : ℕ) → (callbacks addr cb w).0 ≡ ok
unfolding callbacks
polite_callbacks addr cb w = refl

pub idle-IsReady : IsReady callbacks input no_hooks urls (endpoint ∷ [])
unfolding is_live callbacks
idle-IsReady = record {
  table = record { width = omega arith; setter = λ a. refl };
  block = 64;
  memory = refl;
  fresh = λ i e at. rw (← only_endpoint i e at) refl;
  created = λ i e addr w at. rw (← only_endpoint i e at) (created_ok addr w);
  request = λ r e.
      let same_request : request ≡ r = cc in
      subst (λ (x : Req). x.endpoint ≡ none) same_request refl;
}

pub idle-IsIdle : IsIdle callbacks input idle
idle-IsIdle = record {
  settled = record {
    counted = record { empties = refl; all = refl };
    pools = λ i e at. rw (← only_endpoint i e at) empty_pool-IsOwned;
  };
  ready = idle-IsReady;
  leads = λ v u i h. (endpoint, rw (route_0 v u i h) refl);
}

pub no_hooks-ok :
    (addr : ℕ) (type : HookType) (w : ℕ)
    → (req_hook_execute (callbacks addr) no_hooks none type w).0 ≡ ok
unfolding req_hook_execute hook_execute run_hooks callbacks
no_hooks-ok addr req_created w = refl
no_hooks-ok addr end_store_created w = refl
no_hooks-ok addr req_before_fcgx w = refl
no_hooks-ok addr req_before_endpoint w = refl
no_hooks-ok addr req_new w = refl
no_hooks-ok addr req_free w = refl
no_hooks-ok addr end_store_free w = refl

-- One request in use, which got no endpoint.
abbrev pub in_use : State ℕ
in_use = record idle { all_count = 1 }

pub in_use-IsInFlight : IsInFlight in_use request
in_use-IsInFlight = record {
  counted = record { empties = refl; all = refl };
  lent = inl (refl, λ i e at. rw (← only_endpoint i e at) empty_pool-IsOwned);
}

input-Leads : Leads callbacks input urls 0
unfolding set_param set_url scan route view lookup bucket_of home eq_key match_verb
input-Leads = record {
  accepts = refl;
  verb = record { text_from = 71 ∷ []; slen = some 1 };
  urls = record {
    url = record { text_from = uri; slen = some 4 };
    base_url = record { text_from = uri; slen = some 2 };
    query_url = record { text_from = 63 ∷ 98 ∷ []; slen = some 2 };
  };
  method = refl;
  uri = refl;
  found = refl;
}

idle-Serves : Serves callbacks input idle.glob_hooks no_hooks idle.ends 0 endpoint
unfolding req_hook_execute end_hook_execute hook_execute run_hooks glob_hook_execute callbacks
idle-Serves = record {
  at = refl;
  callback = refl;
  obliges = record { incoming = λ w. refl; before = no_hooks-ok; new = λ addr w. refl };
}

handle_new-handled_example :
    Ends callbacks ok
      (init_request ∷ accepted ∷ handled 0 ∷ finish ∷ [])
      (handle_new callbacks input idle)
handle_new-handled_example =
    handle_new-handled callbacks input idle request 0 endpoint idle-IsIdle refl refl input-Leads
      idle-Serves
