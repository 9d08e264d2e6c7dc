-- ===== src/Url/Startup.antt =====
-- `fra_p_url_init` and the table that it makes.
use fast_cgi_rest_api.Common.{
  ℕ, ◌<◌, ◌≡◌, refl, ◌∙◌, ap, ◌≢◌, true, false, none, some, List, arith, length, All, or_else, ok,
  failed, Returns, done,
}
use fast_cgi_rest_api.Common.Sys.{Bytes, Strings, Floats}
use fast_cgi_rest_api.Ht.Fresh.{new-IsFresh}
use fast_cgi_rest_api.Url.{
  Table, init, ht_get, set_url, url_buckets, max_endpoint_length, to_endpoint,
}
use fast_cgi_rest_api.Url.Routes.{IsTable, route}
use fast_cgi_rest_api.Url.FirstRoute.{add_all, plenty, first_route, add_all-first_route}

module _ ⦃st : Strings⦄ where
  pub init-IsTable :
      (mutex_rc : ℕ)
      → (t : Table) × (init false mutex_rc true true ≡ (ok, some t))
        × IsTable t
        × ((v u : Bytes) → route t v u ≡ none)
  unfolding init ht_get route
  init-IsTable mutex_rc =
      let (t, e, f) = new-IsFresh url_buckets set_url (omega arith) in
      (
        t,
        rw (init, ht_get, e),
        record { width = f.width; setter = λ a. rw f.setter },
        λ v u. rw (f.reads u),
      )

  -- From `fra_p_url_init` without threads on, with memory: registrations whose urls are shorter than 512
  -- bytes all succeed, and then a request is led to the endpoint of the first of them that is for its
  -- verb and url, and to none if there is none.
  pub to_endpoint-add_all-init :
      ⦃fl : Floats⦄ (mutex_rc : ℕ) (regs : List (ℕ × Bytes × Bytes))
      → All (λ r. length r.2 < max_endpoint_length) regs
      → (t : Table) × (init false mutex_rc true true ≡ (ok, some t))
        × Returns
            (add_all plenty t regs)
            λ r. (r.0 ≡ ok) × ((v u : Bytes) → to_endpoint r.1 v u ≡ done (first_route regs v u))
  to_endpoint-add_all-init mutex_rc regs short =
      let (t, e, h, none_yet) = init-IsTable mutex_rc in
      let (r, run, (code, leads)) = add_all-first_route t regs h short in
      (
        t,
        e,
        (
          r,
          run,
          (
            code,
            λ v u. leads v u ∙ ap (λ o. done (or_else o (first_route regs v u))) (none_yet v u),
          ),
        ),
      )

  -- With threads `fra_p_url_init` fails where `pthread_mutex_init` succeeds, which returns 0, and
  -- succeeds, with memory, where that fails.
  pub init_pthreads :
      (mutex_rc : ℕ)
      → (init true 0 true true ≡ (failed, none))
        × (mutex_rc ≢ 0 → (init true mutex_rc true true).0 ≡ ok)
  unfolding init ht_get
  init_pthreads mutex_rc =
      let (t, e, _) = new-IsFresh url_buckets set_url (omega arith) in
      (refl, λ n. simp (init, ht_get, e) (ground arith))
