-- ===== src/Req/Locked.antt =====
-- `get_req` and `req_maybe_free` of src/req.c with their mutex, for both values of `fra_p_pthreads`.
use fast_cgi_rest_api.Common.{
  ℕ, ◌+◌, ◌≡◌, refl, sym, subst, ◌∙◌, Bool, true, false, Option, none, some, List-cases, [], ◌∷◌,
  inl, inr, Rc, ok, failed, Run, done, fault, ◌>>=◌, if◌then◌else◌,
}
use fast_cgi_rest_api.Common.Mutex.{lock, unlock, mutex_lock, mutex_unlock}
use fast_cgi_rest_api.Common.Growth.{over_growth_never}
use fast_cgi_rest_api.Common.Sys.{Floats}
use fast_cgi_rest_api.Req.State.{Req, State}
use fast_cgi_rest_api.Req.Handle.{
  get_req, take_req, give_back, store_maybe_free, req_release, req_maybe_free,
}
use fast_cgi_rest_api.Req.Settled.{
  IsInFlight, IsSettled, req_maybe_free-Ends, store_maybe_free-GivenBack,
}

-- What the calls of the mutex return, `fra_p_var_store_size_get`, and the locking and unlocking of the
-- endpoint, whose mutex is not followed any further.
pub record Codes : Type 0 where
  pub lock : Rc
  pub unlock : Rc
  pub size : Rc
  pub end_lock : Rc
  pub end_unlock : Rc

module _ ⦃fl : Floats⦄ {W : Type 0} (call : ℕ → ℕ → W → Rc × W) (pthreads : Bool) where
  -- The label `unlock_cleanup` of `get_req`, which unlocks without `fra_p_unlock` and does not read the
  -- result.
  unfoldable pub unlock_cleanup : Codes → State W → Bool → Run (Option Req × State W × Bool)
  unfolding mutex_unlock
  unlock_cleanup c s held = mutex_unlock c.unlock held >>= λ r. done (none, s, r.1)

  -- The end of `get_req`, with a request or with none.
  unfoldable pub hand_out : Codes → Option Req → State W → Bool → Run (Option Req × State W × Bool)
  unfolding unlock unlock_cleanup
  hand_out c none s held = unlock_cleanup c s held
  hand_out c (some req) s held = do
    (rc, held') ← unlock pthreads c.unlock held
    elim rc [ ok ↦ done (some req, s, held') | failed ↦ unlock_cleanup c s held' ]

  -- `get_req` once its mutex is locked. A size that can not be read leaves it locked.
  unfoldable pub choose_req :
      Codes → Option Req → State W → Bool → Run (Option Req × State W × Bool)
  unfolding hand_out
  choose_req c block s held =
      let chosen = take_req call block s >>= λ r. hand_out c r.0 r.1 held in
      let sized : Run (Option Req × State W × Bool) = elim c.size [
        | ok ↦ chosen
        | failed ↦ done (none, s, held)
      ] in
      elim s.empty_req [ [] ↦ sized | req ∷ rest ↦ chosen ]

  unfoldable pub get_req_locked :
      Codes → Option Req → State W → Bool → Run (Option Req × State W × Bool)
  unfolding lock choose_req
  get_req_locked c block s held = do
    (rc, held') ← lock pthreads c.lock held
    elim rc [ ok ↦ choose_req c block s held' | failed ↦ done (none, s, held') ]

  -- `fra_p_end_store_maybe_free`, at the endpoint of a request.
  unfoldable pub give_back_locked : Codes → Option ℕ → State W → Req → Run (Rc × Req × State W)
  give_back_locked c none s req = give_back call none s req
  give_back_locked c (some i) s req =
      let unlocked : Rc × Req × State W → Rc × Req × State W =
        λ r. (elim r.0 [ ok ↦ c.end_unlock | failed ↦ failed ], r.1, r.2) in
      let given = give_back call (some i) s req >>= λ r. done (unlocked r) in
      let entered : Run (Rc × Req × State W) = elim c.end_lock [
        | ok ↦ given
        | failed ↦ done (failed, req, s)
      ] in
      if pthreads then entered else give_back call (some i) s req

  -- The end of `req_maybe_free`, whose two labels unlock the mutex alike.
  unfoldable pub finish_free : Codes → Rc → State W → Bool → Run (Rc × State W × Bool)
  unfolding unlock
  finish_free c rc s held = do
    (rc', held') ← unlock pthreads c.unlock held
    elim rc' [ ok ↦ done (rc, s, held') | failed ↦ done (failed, s, held') ]

  -- A failure of `fra_p_end_store_maybe_free` goes past the label that unlocks the mutex.
  unfoldable pub req_maybe_free_locked : Codes → State W → Req → Bool → Run (Rc × State W × Bool)
  unfolding lock give_back_locked finish_free
  req_maybe_free_locked c s req held = do
    (rc, held') ← lock pthreads c.lock held
    let released : Run (Rc × State W × Bool) = give_back_locked c req.endpoint s req >>= λ r.
        elim r.0 [
          | ok ↦ req_release call r.2 r.1 >>= λ q. finish_free c q.0 q.1 held'
          | failed ↦ done (failed, r.2, held')
        ]
    elim rc [ ok ↦ released | failed ↦ done (failed, s, held') ]

-- Every mutex works.
abbrev pub working : Codes
working = record { lock = ok; unlock = ok; size = ok; end_lock = ok; end_unlock = ok }

module _ ⦃fl : Floats⦄ {W : Type 0} (call : ℕ → ℕ → W → Rc × W) where
  -- With threads, if the mutex of its endpoint can not be locked while a request is given back,
  -- `req_maybe_free` returns -1 and leaves the mutex of the requests locked. Every later call of
  -- `get_req` and of `req_maybe_free` in this thread then locks it a second time.
  pub req_maybe_free-held :
      (c d : Codes) (s t : State W) (req req' : Req) (block : Option Req) (i : ℕ)
      → c.lock ≡ ok
      → c.end_lock ≡ failed
      → req.endpoint ≡ some i
      → (req_maybe_free_locked call true c s req false ≡ done (failed, s, true))
        × (get_req_locked call true d block t true ≡ fault)
        × (req_maybe_free_locked call true d t req' true ≡ fault)
  unfolding req_maybe_free_locked get_req_locked lock mutex_lock give_back_locked
  req_maybe_free-held c d s t req req' block i locks stuck e =
      (rw (locks, ◌>>=◌, e, give_back_locked, stuck) refl, refl, refl)

  -- What a request's release and the next request do with mutexes that work.
  same_if_ok :
      (run : Run (Rc × Req × State W))
      → (run >>= λ r. done (elim r.0 [ ok ↦ ok | failed ↦ failed ], r.1, r.2)) ≡ run
  same_if_ok (done (ok, req, s)) = refl
  same_if_ok (done (failed, req, s)) = refl
  same_if_ok fault = refl

  give_back-working :
      (endpoint : Option ℕ) (s : State W) (req : Req)
      → give_back_locked call true working endpoint s req ≡ give_back call endpoint s req
  unfolding give_back_locked
  give_back-working none s req = refl
  give_back-working (some i) s req = same_if_ok (give_back call (some i) s req)

  -- With threads and mutexes that work, `req_maybe_free` of a request that is being handled does the
  -- same as without threads: it succeeds, nothing is in use after it, and its mutex is free again. The
  -- next `get_req` is then handed a request from the pool, and leaves the mutex free.
  pub req_maybe_free-working :
      (s : State W) (req : Req) (block : Option Req)
      → IsInFlight s req
      → (t : State W) × (req' : Req) × (u : State W) × IsSettled t
        × (req_maybe_free call s req ≡ done (ok, t))
        × (req_maybe_free_locked call true working s req false ≡ done (ok, t, false))
        × (get_req call block t ≡ done (some req', u))
        × (get_req_locked call true working block t false ≡ done (some req', u, false))
  unfolding req_maybe_free store_maybe_free req_release req_maybe_free_locked lock mutex_lock
      finish_free unlock mutex_unlock get_req take_req get_req_locked choose_req hand_out
  req_maybe_free-working s req block h =
      let g = store_maybe_free-GivenBack call s req h in
      let given : give_back call req.endpoint s req ≡ done (ok, g.req_after, g.after) =
        g.run_done in
      let kept = over_growth_never g.after.all_count g.after.empty_count in
      let t : State W = record g.after {
        empty_req = g.req_after ∷ g.after.empty_req;
        empty_count = g.after.empty_count + 1;
      } in
      let released : req_release call g.after g.req_after ≡ done (ok, t) =
        rw (req_release, kept) refl in
      let freed : req_maybe_free call s req ≡ done (ok, t) =
        rw (req_maybe_free, given, released) refl in
      let e = req_maybe_free-Ends call s req h in
      let whole : Run (Rc × State W) = done (ok, t) in
      let both : done (ok, e.after) ≡ whole = sym e.run_done ∙ freed in
      let same : e.after ≡ t = cc both in
      (
        t,
        g.req_after,
        _,
        subst IsSettled same e.settled,
        freed,
        rw (req_maybe_free_locked, give_back-working req.endpoint s req, given, released) refl,
        refl,
        refl,
      )

  handed :
      (c : Codes) (run : Run (Option Req × State W))
      → (run >>= λ r. hand_out call false c r.0 r.1 false)
        ≡ (run >>= λ r. elim r.0 [ none ↦ fault | some req ↦ done (some req, r.1, false) ])
  unfolding hand_out unlock unlock_cleanup mutex_unlock
  handed c (done (none, s)) = refl
  handed c (done (some req, s)) = refl
  handed c fault = refl

  without_threads :
      (c : Codes) (s : State W) (block : Option Req)
      → c.size ≡ ok
      → get_req_locked call false c block s false ≡ (
          take_req call block s >>= λ r. elim r.0 [
            | none ↦ fault
            | some req ↦ done (some req, r.1, false)
          ])
  unfolding get_req_locked lock choose_req
  without_threads c s block sized = elim (List-cases s.empty_req) [
    | inl none_free ↦
        simp (get_req_locked, lock, choose_req, none_free, sized) (handed c (take_req call block s))
    | inr (req, rest, free) ↦
        simp (get_req_locked, lock, choose_req, free) (handed c (take_req call block s))
  ]

  abbrev opened : Option Req × State W → Run (Option Req × State W × Bool)
  opened r = done (r.0, r.1, false)

  in_handler :
      (run : Run (Option Req × State W))
      → (run
          >>= (λ (r : Option Req × State W). elim r.0 as (λ x. Run (Option Req × State W)) [
            | none ↦ fault
            | some req ↦ done (some req, r.1)
          ])
          >>= λ (r : Option Req × State W). opened r)
        ≡ (run >>= λ r. elim r.0 [ none ↦ fault | some req ↦ done (some req, r.1, false) ])
  in_handler (done (none, s)) = refl
  in_handler (done (some req, s)) = refl
  in_handler fault = refl

  -- Without threads `get_req` hands out the request that it would without its mutex, and the mutex stays
  -- free. Where it has none, because `malloc` or a hook fails, it unlocks the mutex, which it has not
  -- locked: that is undefined. This is the `get_req` that the handling of a request calls.
  pub get_req-unlocked :
      (c : Codes) (s : State W) (block : Option Req)
      → c.size ≡ ok
      → (get_req_locked call false c block s false ≡ (
          take_req call block s >>= λ r. elim r.0 [
            | none ↦ fault
            | some req ↦ done (some req, r.1, false)
          ]))
        × (get_req_locked call false c block s false
            ≡ (get_req call block s >>= λ r. done (r.0, r.1, false)))
  unfolding get_req
  get_req-unlocked c s block sized =
      let e = without_threads c s block sized in (e, e ∙ sym (in_handler (take_req call block s)))
