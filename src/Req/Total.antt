-- ===== src/Req/Total.antt =====
-- `fra_p_req_handle_new` as a whole: every outcome answers the request once and leaves nothing in use.
use fast_cgi_rest_api.Common.{
  ℕ, [], true, suc, ◌+◌, ◌-◌, ◌≡◌, refl, ap, ◌∙◌, Bool-cases, Option, none, some, List, List-cases,
  length, ◌∷◌, arith, inl, inr, get_elem?, Rc, ok, Rc-cases, Run, done, ◌>>=◌,
}
use fast_cgi_rest_api.Common.Sys.{Bytes, Strings, Floats}
use fast_cgi_rest_api.Hook.{req_created, req_incoming, glob_hook_execute, req_hook_execute}
use fast_cgi_rest_api.End.{End}
use fast_cgi_rest_api.Url.Routes.{route}
use fast_cgi_rest_api.Req.State.{Req, Event, State, Input, run_hooks, hooks_of}
use fast_cgi_rest_api.Req.Handle.{take_req, get_req, start, reset_req, handle_new, final_cleanup}
use fast_cgi_rest_api.Req.Settled.{IsSettled}
use fast_cgi_rest_api.Req.Answer.{Answer, EndsWith, EndsWith-same, IsReady, final_cleanup-Ends}
use fast_cgi_rest_api.Req.Outcome.{IsEntered, refused-Answer, start-Answer}

module _ ⦃st : Strings⦄ ⦃fl : Floats⦄ {W : Type 0} (call : ℕ → ℕ → W → Rc × W) (inp : Input) where
  -- A state between two requests from which one can be handled.
  pub record IsIdle (s : State W) : Type 0 where
    pub settled : IsSettled s
    pub ready : IsReady call inp s.req_hooks s.urls s.ends
    pub leads :
        (v u : Bytes) (i : ℕ)
        → route s.urls v u ≡ some i
        → (e : End) × (get_elem? s.ends i ≡ some e)

  -- What the handling relies on to answer: both calls of `FCGX_Accept_r` succeed, if no request is free
  -- there is memory for one, and the hooks for a new request return 0.
  pub record IsHeard (s : State W) : Type 0 where
    pub accepts : inp.accepts ≡ true
    pub turned_accepts : inp.turned_accepts ≡ true
    pub stocked : s.empty_req ≡ [] → (r : Req) × (inp.request ≡ some r)
    pub creates :
        (addr : ℕ) (w : W) → (req_hook_execute (call addr) s.req_hooks none req_created w).0 ≡ ok

  -- What `get_req` returns: a request, which is now in use.
  data Got (es : List Event) : Run (Option Req × State W) → Type 0 where
    got :
        (req : Req) (s : State W)
        → IsEntered call inp s (reset_req call req)
        → s.events ≡ es
        → Got es (done (some req, s))

  pub pooled-IsEntered :
      (s : State W) (req : Req) (rest : List Req)
      → IsIdle s
      → s.empty_req ≡ req ∷ rest
      → IsEntered call inp
          (record s { empty_req = rest; empty_count = s.empty_count - 1 })
          (reset_req call req)
  pooled-IsEntered s req rest h e =
      let c = h.settled.counted in
      let n : s.empty_count ≡ suc (length rest) = c.empties ∙ ap length e in
      record {
        counted = record { empties = omega (arith, n); all = omega (arith, n, c.all) };
        pools = h.settled.pools;
        endpoint = refl;
        ready = h.ready;
        leads = h.leads;
      }

  pub new-IsEntered :
      (s : State W) (req : Req) (w : W)
      → IsIdle s
      → IsEntered call inp
          (record s { all_count = s.all_count + 1; world = w })
          (reset_req call req)
  new-IsEntered s req w h =
      let c = h.settled.counted in
      record {
        counted = record { empties = c.empties; all = omega (arith, c.all) };
        pools = h.settled.pools;
        endpoint = refl;
        ready = h.ready;
        leads = h.leads;
      }

  created-ok :
      (s : State W) (req : Req)
      → IsHeard s
      → req.endpoint ≡ none
      → (w : W) × (run_hooks call s req req_created ≡ done (ok, record s { world = w }))
  unfolding run_hooks hooks_of
  created-ok s req k n =
      let r = req_hook_execute (call req.addr) s.req_hooks none req_created s.world in
      (
        r.1,
        rw (run_hooks, n)
            (ap (λ c. done (c, record s { world = r.1 })) (k.creates req.addr s.world)),
      )

  chosen-Got :
      (s : State W) (block : Option Req) (req : Req)
      → IsIdle s
      → IsHeard s
      → req.endpoint ≡ none
      → s.empty_req ≡ []
      → block ≡ some req
      → Got s.events (get_req call block s)
  unfolding get_req take_req
  chosen-Got s block req h k n e memory =
      let (w, run) = created-ok s req k n in
      rw (get_req, take_req, e, memory, run) (got req _ (new-IsEntered s req w h) refl)

  get_req-Got : (s : State W) → IsIdle s → IsHeard s → Got s.events (get_req call inp.request s)
  unfolding get_req take_req
  get_req-Got s h k = elim (List-cases s.empty_req) [
    | inl e ↦
        let (req, memory) = k.stocked e in
        chosen-Got s inp.request req h k (h.ready.request req memory) e memory
    | inr (req, rest, e) ↦
        rw (get_req, take_req, e) (got req _ (pooled-IsEntered s req rest h e) refl)
  ]

  Got-Answer :
      (es : List Event) (run : Run (Option Req × State W))
      → inp.accepts ≡ true
      → inp.turned_accepts ≡ true
      → Got es run
      → EndsWith call Answer es (
          run >>= λ r. elim r.0 [
            | none ↦ final_cleanup call inp r.1
            | some req ↦ start call inp r.1 (reset_req call req)
          ])
  Got-Answer es run accepts turned (got req s h e) =
      EndsWith-same call e (start-Answer call inp accepts turned s (reset_req call req) h)

  entered-Answer :
      (s : State W)
      → IsIdle s
      → IsHeard s
      → EndsWith call Answer s.events (
          get_req call inp.request s >>= λ r. elim r.0 [
            | none ↦ final_cleanup call inp r.1
            | some req ↦ start call inp r.1 (reset_req call req)
          ])
  entered-Answer s h k = Got-Answer s.events _ k.accepts k.turned_accepts (get_req-Got s h k)

  pub handle_new-Answer :
      (s : State W) → IsIdle s → IsHeard s → EndsWith call Answer s.events (handle_new call inp s)
  unfolding handle_new
  handle_new-Answer s h k =
      let (rc, w) = glob_hook_execute (call 0) s.glob_hooks req_incoming s.world in
      let t : State W = record s { world = w } in
      let settled : IsSettled t = record {
        counted = record { empties = h.settled.counted.empties; all = h.settled.counted.all };
        pools = h.settled.pools;
      } in
      let idle : IsIdle t = record { settled = settled; ready = h.ready; leads = h.leads } in
      let heard : IsHeard t = record {
        accepts = k.accepts;
        turned_accepts = k.turned_accepts;
        stocked = k.stocked;
        creates = k.creates;
      } in
      elim (Bool-cases inp.pollin) [
        | inl ready ↦ elim (Rc-cases rc) [
          | inl good ↦ simp (ready, good) (entered-Answer t idle heard)
          | inr bad ↦
              simp (ready, bad)
                (refused-Answer call inp s.events _
                  (final_cleanup-Ends call inp t k.turned_accepts settled))
        ]
        | inr quiet ↦ simp quiet (
            refused-Answer call inp s.events _
              (final_cleanup-Ends call inp s k.turned_accepts h.settled))
      ]
