-- ===== src/Demo/Answers.antt =====
-- How the server of src/example/fra-server-example.c answers the urls that it knows.
use Prim.Native.Nat.{bit_and}
use fast_cgi_rest_api.Common.{
  ℕ, ◌≡◌, ◌≢◌, refl, sym, ap, ◌∙◌, true, false, Bool-cases, some, List, [], ◌∷◌, ◌++◌, inl, inr,
  get_elem?, Rc, ok, ◌==◌,
}
use fast_cgi_rest_api.Common.Sys.{Bytes, Strings, Floats}
use fast_cgi_rest_api.Ht.Chain.{eq_key, eq_key_iff, eq_key_refl}
use fast_cgi_rest_api.End.{End}
use fast_cgi_rest_api.Poll
use fast_cgi_rest_api.Url.Routes.{route}
use fast_cgi_rest_api.Var
use fast_cgi_rest_api.Url.FirstRoute.{first_route}
use fast_cgi_rest_api.Req.Params.{Urls, set_param, set_url, scan}
use fast_cgi_rest_api.Req.State.{Req, State, Input, init_request, accepted, handled, finish}
use fast_cgi_rest_api.Req.Settled.{Ends}
use fast_cgi_rest_api.Req.Handled.{Leads, Serves, handle_new-handled}
use fast_cgi_rest_api.Req.Kept.{get_elem?-plan, shape}
use fast_cgi_rest_api.Server.{with_events, receive}
use fast_cgi_rest_api.Server.Sequence.{Served, Supplies, serving-IsIdle}
use fast_cgi_rest_api.Demo.{Program, App, get, say_hello_url, say_bye_url, serving}
use fast_cgi_rest_api.Demo.Obliges.{Polite, req_list-Obliges}
use fast_cgi_rest_api.Demo.Calls.{new_hooks, fresh}
use fast_cgi_rest_api.Demo.Setup.{routes, glob_list, req_list, IsSetUp}

-- The urls of the example, with the places of their endpoints.
pub data Known : ℕ → Bytes → Type 0 where
  say_hello : Known 0 say_hello_url
  say_bye : Known 1 say_bye_url

differ : say_hello_url ≢ say_bye_url
differ e = cc

first_route-get :
    ⦃st : Strings⦄ (i : ℕ) (url : Bytes) → Known i url → first_route routes get url ≡ some i
unfolding first_route
first_route-get i url say_hello = rw (eq_key_refl say_hello_url, eq_key_refl get) refl
first_route-get i url say_bye =
    let other : eq_key say_hello_url say_bye_url ≡ false =
      elim (Bool-cases (eq_key say_hello_url say_bye_url)) [
        | inl same ↦ absurd (differ ((eq_key_iff say_hello_url say_bye_url).0 same))
        | inr e ↦ e
      ] in
    rw (other, eq_key_refl say_bye_url, eq_key_refl get) refl

abbrev whole_url : Bytes → ℕ → Urls
whole_url url n = record {
  url = record { text_from = url; slen = some n };
  base_url = record { text_from = url; slen = some n };
  query_url = record { text_from = []; slen = some 0 };
}

-- A connection that asks for `GET` and a url, at a state in which there is memory for a request.
pub record Asks (inp : Input) (url : Bytes) : Type 0 where
  pub accepts : inp.accepts ≡ true
  pub method : inp.method ≡ some get
  pub uri : inp.uri ≡ some url
  pub req : Req
  pub request : inp.request ≡ some req

module _ ⦃st : Strings⦄ ⦃fl : Floats⦄ (p : Program) {W : Type 0} (call : ℕ → ℕ → W → Rc × W)
    (outside : State W → Input) where
  Asks-Leads :
      (revents i : ℕ) (url : Bytes) (s : State W)
      → Known i url
      → Asks (outside s) url
      → route s.urls get url ≡ some i
      → Leads call (with_events revents (outside s)) s.urls i
  unfolding set_param set_url scan
  Asks-Leads revents i url s say_hello a found = record {
    accepts = a.accepts;
    verb = record { text_from = get; slen = some 3 };
    urls = whole_url say_hello_url 10;
    method = rw a.method refl;
    uri = rw a.uri refl;
    found = found;
  }
  Asks-Leads revents i url s say_bye a found = record {
    accepts = a.accepts;
    verb = record { text_from = get; slen = some 3 };
    urls = whole_url say_bye_url 8;
    method = rw a.method refl;
    uri = rw a.uri refl;
    found = found;
  }

  fresh-Serves :
      (inp : Input) (a : App) (w : W) (s : State W) (i cb : ℕ) (vars : Var.VarMap)
      → IsSetUp p a
      → shape s ≡ shape (serving a w)
      → Polite call
      → get_elem? a.ends i ≡ some (fresh vars cb)
      → (cb == 0) ≡ false
      → (e : End) × Serves call inp s.glob_hooks s.req_hooks s.ends i e
  fresh-Serves inp a w s i cb vars h same polite at set =
      let (e, here, plans) =
        get_elem?-plan s.ends a.ends i (fresh vars cb) (sym (ap (λ x. x.3) same)) at in
      let hooks : e.hooks ≡ new_hooks [] = ap (λ (x : End). x.hooks) (sym plans) in
      let callback : e.callback ≡ cb = ap (λ (x : End). x.callback) (sym plans) in
      let globs : s.glob_hooks ≡ glob_list p ∷ [] = ap (λ x. x.0) same ∙ h.glob_hooks in
      let reqs : s.req_hooks ≡ new_hooks (req_list p) = ap (λ x. x.1) same ∙ h.req_hooks in
      (
        e,
        record {
          at = here;
          callback = rw callback set;
          obliges = rw (globs, reqs) (req_list-Obliges call p e polite hooks);
        },
      )

  Known-Serves :
      (inp : Input) (a : App) (w : W) (s : State W) (i : ℕ) (url : Bytes)
      → IsSetUp p a
      → shape s ≡ shape (serving a w)
      → Polite call
      → Known i url
      → (e : End) × Serves call inp s.glob_hooks s.req_hooks s.ends i e
  Known-Serves inp a w s i url h same polite say_hello =
      let (vars, vars', ends) = h.ends in
      fresh-Serves inp a w s 0 p.handle vars h same polite (ap (λ l. get_elem? l 0) ends)
        p.handle_set
  Known-Serves inp a w s i url h same polite say_bye =
      let (vars, vars', ends) = h.ends in
      fresh-Serves inp a w s 1 p.say_bye vars' h same polite (ap (λ l. get_elem? l 1) ends)
        p.say_bye_set

  -- At any time in the run of the example server: a readable connection that asks for `GET` and
  -- `/say/hello`, or for `GET` and `/say/bye`, if every callback returns 0 and `malloc` returns a request
  -- without an endpoint and a block that is not in use. `fra_p_req_handle_new` returns 0. The connection
  -- is initialised, accepted and finished once, and before its end the callback of the first endpoint, or
  -- of the second, is called once. Then no request is in use.
  pub receive-handled :
      (revents i : ℕ) (url : Bytes) (a : App) (w : W) (rcs : List Rc) (s : State W)
      → IsSetUp p a
      → Served call outside (serving a w) rcs s
      → Supplies call outside s
      → Polite call
      → (bit_and revents Poll.pollin == 0) ≡ false
      → Known i url
      → Asks (outside s) url
      → Ends call ok
          (s.events ++ init_request ∷ accepted ∷ handled i ∷ finish ∷ [])
          (receive call outside revents s)
  unfolding receive
  receive-handled revents i url a w rcs s h served m polite readable known asks =
      let inp = with_events revents (outside s) in
      let (e, serves) = Known-Serves inp a w s i url h served.same polite known in
      let urls : s.urls ≡ a.urls = ap (λ x. x.2) served.same in
      let found : route s.urls get url ≡ some i =
        ap (λ t. route t get url) urls ∙ h.routes get url ∙ first_route-get i url known in
      handle_new-handled call inp s asks.req i e
        (serving-IsIdle call outside revents s served.serving m) (rw readable refl) asks.request
        (Asks-Leads revents i url s known asks found) serves
