-- ===== src/Server/Sequence.antt =====
-- One call of `fra_p_req_handle_new` of src/req.c after another: each is answered, and the state in
-- between is one from which the next can be handled.
use fast_cgi_rest_api.Common.{
  suc, max, ◌+◌, ◌≤◌, length, arith, ℕ, ◌≡◌, refl, sym, subst, ap, ◌∙◌, false, true, none, some,
  List, [], ◌∷◌, ◌++◌, append-nil, append_assoc, get_elem?, map, Rc, ok, Run, done, Returns,
}
use fast_cgi_rest_api.Common.Blocks.{is_live}
use fast_cgi_rest_api.Common.Sys.{Bytes, Strings, Floats}
use fast_cgi_rest_api.Hook.{Table, end_store_created, req_created, req_hook_execute}
use fast_cgi_rest_api.End.{End, end_hooks}
use fast_cgi_rest_api.Url
use fast_cgi_rest_api.Url.Routes.{IsTable, route}
use fast_cgi_rest_api.Req.State.{Req, Event, State, Input}
use fast_cgi_rest_api.Req.Handle.{handle_new}
use fast_cgi_rest_api.Req.Settled.{IsSettled}
use fast_cgi_rest_api.Req.Answer.{Answer}
use fast_cgi_rest_api.Req.Total.{IsIdle, IsHeard, handle_new-Answer}
use fast_cgi_rest_api.Req.Kept.{Limits, plan, get_elem?-plan, shape, kept, last}
use fast_cgi_rest_api.Req.Frame.{handle_new-Keeps}
use fast_cgi_rest_api.Server.{with_events, receive, receive_each}

-- The answers to some requests, and the codes of their handling.
pub data Answers : List Rc → List Event → Type 0 where
  no_answers : Answers [] []
  answered :
      {rc : Rc} {rcs : List Rc} {new es : List Event}
      → Answer rc new
      → Answers rcs es
      → Answers (rc ∷ rcs) (new ++ es)

-- The answer to one more request.
pub Answers-snoc :
    {rc : Rc} {rcs : List Rc} {new es : List Event}
    → Answers rcs es
    → Answer rc new
    → Answers (rcs ++ rc ∷ []) (es ++ new)
Answers-snoc {new} no_answers a = subst (Answers _) (append-nil new) (answered a no_answers)
Answers-snoc {new} (answered {new = first} {es} b h) a =
    subst (Answers _) (sym (append_assoc first es new)) (answered b (Answers-snoc h a))

module _ ⦃st : Strings⦄ ⦃fl : Floats⦄ {W : Type 0} (call : ℕ → ℕ → W → Rc × W)
    (outside : State W → Input) where
  -- The hooks, the urls and the endpoints without their pools: the routes lead to endpoints, and the
  -- hooks for new blocks return 0.
  pub record IsWired (req_hooks : Table) (urls : Url.Table) (ends : List End) : Type 0 where
    pub table : IsTable urls
    pub created :
        (i : ℕ) (e : End) (addr : ℕ) (w : W)
        → get_elem? ends i ≡ some e
        → (end_hooks (call addr) req_hooks e.hooks end_store_created w).0 ≡ ok
    pub leads :
        (v u : Bytes) (i : ℕ) → route urls v u ≡ some i → (e : End) × (get_elem? ends i ≡ some e)

  -- A state between two requests.
  pub record IsServing (s : State W) : Type 0 where
    pub settled : IsSettled s
    pub wired : IsWired s.req_hooks s.urls s.ends

  -- What `malloc` returns in each state: a block that no endpoint has, and for a request memory with no
  -- endpoint in it, or nothing.
  pub record Supplies (s : State W) : Type 0 where
    pub block : ℕ
    pub memory : (outside s).block ≡ some block
    pub fresh : (i : ℕ) (e : End) → get_elem? s.ends i ≡ some e → is_live block e.pool.live ≡ false
    pub request : (r : Req) → (outside s).request ≡ some r → r.endpoint ≡ none

  -- What is outside in each state: besides, both calls of `FCGX_Accept_r` succeed, and there is memory for
  -- a request if none is free.
  pub record Connects (s : State W) : Type 0 where
    pub supplies : Supplies s
    pub accepts : (outside s).accepts ≡ true
    pub turned_accepts : (outside s).turned_accepts ≡ true
    pub stocked : s.empty_req ≡ [] → (r : Req) × ((outside s).request ≡ some r)

  -- The hooks for a new request return 0.
  unfoldable pub Creates : Table → Type 0
  Creates req_hooks =
      (addr : ℕ) (w : W) → (req_hook_execute (call addr) req_hooks none req_created w).0 ≡ ok

  pub serving-IsHeard :
      (revents : ℕ) (s : State W)
      → Connects s
      → Creates s.req_hooks
      → IsHeard call (with_events revents (outside s)) s
  unfolding Creates
  serving-IsHeard revents s m c = record {
    accepts = m.accepts;
    turned_accepts = m.turned_accepts;
    stocked = m.stocked;
    creates = c;
  }

  pub serving-IsIdle :
      (revents : ℕ) (s : State W)
      → IsServing s
      → Supplies s
      → IsIdle call (with_events revents (outside s)) s
  serving-IsIdle revents s h m = record {
    settled = h.settled;
    ready = record {
      table = h.wired.table;
      block = m.block;
      memory = m.memory;
      fresh = m.fresh;
      created = h.wired.created;
      request = m.request;
    };
    leads = h.wired.leads;
  }

  -- Other pools make no difference.
  plan-IsWired :
      (s t : State W)
      → IsWired s.req_hooks s.urls s.ends
      → shape t ≡ shape s
      → IsWired t.req_hooks t.urls t.ends
  plan-IsWired s t h e =
      let urls : t.urls ≡ s.urls = ap (λ x. x.2) e in
      let hooks : t.req_hooks ≡ s.req_hooks = ap (λ x. x.1) e in
      let ends : map plan t.ends ≡ map plan s.ends = ap (λ x. x.3) e in
      record {
        table = subst IsTable (sym urls) h.table;
        created = λ i d addr w at.
            let (d', at', same) = get_elem?-plan s.ends t.ends i d ends at in
            let tables : d.hooks ≡ d'.hooks = ap (λ (x : End). x.hooks) same in
            rw (hooks, tables) (h.created i d' addr w at');
        leads = λ v u i found.
            let (d, at) = h.leads v u i (ap (λ x. route x v u) (sym urls) ∙ found) in
            let (d', at', _) = get_elem?-plan t.ends s.ends i d (sym ends) at in (d', at');
      }

  -- One request is answered, and the state after it is again one between two requests.
  pub record Received (s : State W) (run : Run (Rc × State W)) : Type 0 where
    pub rc : Rc
    pub after : State W
    pub new : List Event
    pub run_done : run ≡ done (rc, after)
    pub serving : IsServing after
    pub same : shape after ≡ shape s
    pub made : after.all_count ≤ max 1 s.all_count
    pub answer : Answer rc new
    pub events : after.events ≡ s.events ++ new

  pub receive-Received :
      (revents : ℕ) (s : State W)
      → IsServing s
      → Connects s
      → Creates s.req_hooks
      → Received s (receive call outside revents s)
  unfolding receive
  receive-Received revents s h m created =
      let inp = with_events revents (outside s) in
      let a =
        handle_new-Answer call inp s (serving-IsIdle revents s h m.supplies)
          (serving-IsHeard revents s m created) in
      let limits : Limits = (shape s, max 1 s.all_count) in
      let c = h.settled.counted in
      let room : s.empty_req ≡ [] → s.all_count + 1 ≤ max 1 s.all_count = λ none_free.
        let n : s.empty_count ≡ 0 = c.empties ∙ ap length none_free in omega (arith, n, c.all) in
      let (same, made) =
        kept last limits (handle_new call inp s) (a.rc, a.ends.after)
          (handle_new-Keeps call limits inp s (refl, omega arith) room) a.ends.run_done in
      record {
        rc = a.rc;
        after = a.ends.after;
        new = a.new;
        run_done = a.ends.run_done;
        serving = record {
          settled = a.ends.settled;
          wired = plan-IsWired s a.ends.after h.wired same;
        };
        same = same;
        made = made;
        answer = a.allowed;
        events = a.ends.events;
      }

  -- From the state `s` on, some requests were answered; the state after them is `t`. The pool has at
  -- most one request then, if it had none before.
  pub record Served (s : State W) (rcs : List Rc) (t : State W) : Type 0 where
    pub serving : IsServing t
    pub same : shape t ≡ shape s
    pub made : t.all_count ≤ max 1 s.all_count
    pub new : List Event
    pub answers : Answers rcs new
    pub events : t.events ≡ s.events ++ new

  pub nothing-Served : (s : State W) → IsServing s → Served s [] s
  nothing-Served s h = record {
    serving = h;
    same = refl;
    made = omega arith;
    new = [];
    answers = no_answers;
    events = sym (append-nil s.events);
  }

  pub Served-snoc :
      (s t : State W) (rcs : List Rc) (run : Run (Rc × State W))
      → Served s rcs t
      → (a : Received t run) → Served s (rcs ++ a.rc ∷ []) a.after
  Served-snoc s t rcs run h a = record {
    serving = a.serving;
    same = a.same ∙ h.same;
    made = omega (arith, a.made, h.made);
    new = h.new ++ a.new;
    answers = Answers-snoc h.answers a.answer;
    events = a.events ∙ ap (λ l. l ++ a.new) h.events ∙ append_assoc s.events h.new a.new;
  }

  Served-cons :
      (s t : State W) (rcs : List Rc) (run : Run (Rc × State W)) (a : Received s run)
      → Served a.after rcs t
      → Served s (a.rc ∷ rcs) t
  Served-cons s t rcs run a h = record {
    serving = h.serving;
    same = h.same ∙ a.same;
    made = omega (arith, a.made, h.made);
    new = a.new ++ h.new;
    answers = answered a.answer h.answers;
    events = h.events ∙ ap (λ l. l ++ h.new) a.events ∙ append_assoc s.events a.new h.new;
  }

  -- From a state between two requests any number of calls of `fra_p_req_handle_new`, each with whatever
  -- events, verbs and urls. The routes lead to endpoints, the hooks for new requests and new blocks return
  -- 0, and in each state the calls of `FCGX_Accept_r` succeed and `malloc` returns a block that is not in
  -- use and, if no request is free, one without an endpoint.
  -- Then all calls return, each with a code, and each writes one answer of `Answer` that goes with its code, in their order,
  -- and the state after them is again one between two requests. The hooks and the urls are those of
  -- before, and so are the endpoints but for their pools; and the pool of requests has at most one, if
  -- it had none before, else at most as many as before.
  pub receive_each-Served :
      (revents : List ℕ) (s : State W)
      → IsServing s
      → ((t : State W) → Connects t)
      → Creates s.req_hooks
      → Returns
          (receive_each call outside revents s)
          λ r. (length r.0 ≡ length revents) × Served s r.0 r.1
  unfolding receive_each
  receive_each-Served [] s h m c = (([], s), refl, (refl, nothing-Served s h))
  receive_each-Served (r ∷ revents) s h m c =
      let a = receive-Received r s h (m s) c in
      let again : Creates a.after.req_hooks = subst Creates (sym (ap (λ x. x.1) a.same)) c in
      let (p, run, (count, served)) = receive_each-Served revents a.after a.serving m again in
      ((a.rc ∷ p.0, p.1), rw (a.run_done, run), (ap suc count, Served-cons s p.1 p.0 _ a served))
