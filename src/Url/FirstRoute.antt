-- ===== src/Url/FirstRoute.antt =====
-- Sequences of registrations of urls: the first one for a verb and a url counts.
use fast_cgi_rest_api.Common.{
  ℕ, ◌<◌, ◌≡◌, refl, ap, ◌∙◌, Bool, true, false, ◌&&◌, Option, none, some, List, [], ◌∷◌, or_else,
  or_else-none, if◌then◌else◌, length, lt→ltb, All, Rc, ok, failed, Run, done, ◌>>=◌, Returns,
}
use fast_cgi_rest_api.Common.Sys.{Bytes, Strings, Floats}
use fast_cgi_rest_api.Ht.Chain.{eq_key}
use fast_cgi_rest_api.Ht.View.{view}
use fast_cgi_rest_api.Url.{Chain, Table, max_endpoint_length, Allocs, to_endpoint, add}
use fast_cgi_rest_api.Url.Routes.{IsTable, route, Adds, allocated, to_endpoint-route, add-Entered}

module _ ⦃st : Strings⦄ where
  -- All allocations succeed.
  abbrev pub plenty : Allocs
  plenty = record { verb = true; node = true; key = true; grown = true }

  allocated-plenty : (c : Option Chain) → allocated plenty c ≡ true
  allocated-plenty none = refl
  allocated-plenty (some c) = refl

  or_else_assoc :
      (o : Option ℕ) (b : Bool) (e : ℕ) (p : Option ℕ)
      → or_else (or_else o (if b then some e else none)) p ≡ or_else o (if b then some e else p)
  or_else_assoc none true e p = refl
  or_else_assoc none false e p = refl
  or_else_assoc (some a) b e p = refl

  -- The endpoint of the first of the registrations that is for a verb and a url.
  unfoldable pub first_route : List (ℕ × Bytes × Bytes) → Bytes → Bytes → Option ℕ
  first_route [] v u = none
  first_route ((e, verb, url) ∷ regs) v u =
      let rest = first_route regs v u in if eq_key url u && eq_key verb v then some e else rest

  -- A sequence of calls of `fra_end_url_add`, up to one that fails.
  unfoldable pub add_all :
      ⦃fl : Floats⦄ → Allocs → Table → List (ℕ × Bytes × Bytes) → Run (Rc × Table)
  add_all m t [] = done (ok, t)
  add_all m t ((e, verb, url) ∷ regs) = do
    r ← add m t e verb url
    let rest = add_all m r.1 regs
    elim r.0 [ ok ↦ rest | failed ↦ done (failed, r.1) ]

  pub add-Adds :
      ⦃fl : Floats⦄ (t : Table) (e : ℕ) (verb url : Bytes)
      → IsTable t
      → length url < max_endpoint_length
      → Returns (add plenty t e verb url) (Adds t e verb url)
  add-Adds t e verb url h s =
      rw (lt→ltb (length url) 512 s, allocated-plenty (view t url)) at
        (add-Entered plenty t e verb url h)

  -- With memory, registrations whose urls are shorter than 512 bytes all succeed, and then a request is
  -- led to the endpoint of the first registration for its verb and url, if the table had none before.
  pub add_all-first_route :
      ⦃fl : Floats⦄ (t : Table) (regs : List (ℕ × Bytes × Bytes))
      → IsTable t
      → All (λ r. length r.2 < max_endpoint_length) regs
      → Returns (add_all plenty t regs) λ r.
        (r.0 ≡ ok)
        × ((v u : Bytes)
            → to_endpoint r.1 v u ≡ done (or_else (route t v u) (first_route regs v u)))
  unfolding add_all first_route
  add_all-first_route t [] h short =
      ((ok, t), refl, (refl, λ v u. rw (to_endpoint-route t v u h, or_else-none (route t v u))))
  add_all-first_route t ((e, verb, url) ∷ regs) h (s, short) =
      let ((rc, t'), run, a) = add-Adds t e verb url h s in
      let (r, runs, (code, leads)) = add_all-first_route t' regs a.table short in
      (
        r,
        rw (run, ◌>>=◌, a.code) runs,
        (
          code,
          λ v u.
              leads v u
              ∙ ap done (
                  rw (a.routes v u)
                    (or_else_assoc (route t v u) (eq_key url u && eq_key verb v) e _)),
        ),
      )
