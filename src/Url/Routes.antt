-- ===== src/Url/Routes.antt =====
-- The route table as a map from verbs and urls to endpoints: lookups, and registrations on every branch.
use fast_cgi_rest_api.Common.{
  ℕ, ◌<◌, ◌≡◌, refl, Bool, true, false, ◌&&◌, Option, none, some, List, [], ◌∷◌, ◌++◌, arith, inl,
  inr, or_else, or_else-none, Bool-cases, if◌then◌else◌, length, length-set, take-all, ltb, ltb→lt,
  ltb→le, tests, Rc, ok, failed, Run, done, ◌>>=◌, Returns,
}
use fast_cgi_rest_api.Common.Sys.{Bytes, Strings, Floats}
use fast_cgi_rest_api.Ht.Chain.{eq_key, eq_key_iff}
use fast_cgi_rest_api.Ht.{Ptr, new, put, get, deref, store}
use fast_cgi_rest_api.Ht.View.{view, get-view, view-store, put-Puts, put-failed, Puts}
use fast_cgi_rest_api.Url.{
  Url, Chain, Table, max_endpoint_length, set_url, strnlen, Allocs, link, match_verb, to_endpoint,
  add_node, enter, add,
}

-- A table that `fra_p_url_ht_get` made.
pub record IsTable (t : Table) : Type 0 where
  pub width : 0 < length t.buck
  pub setter : (a : Url) → t.set_value a ≡ set_url a

module _ ⦃st : Strings⦄ where
  abbrev pub match_chain : Bytes → Option Chain → Option ℕ
  match_chain verb none = none
  match_chain verb (some c) = match_verb verb (c.first ∷ c.next)

  -- The endpoint that a verb and a url are mapped to.
  unfoldable pub route : Table → Bytes → Bytes → Option ℕ
  route t verb url = match_chain verb (view t url)

  pub to_endpoint-route :
      (t : Table) (verb url : Bytes) → IsTable t → to_endpoint t verb url ≡ done (route t verb url)
  unfolding to_endpoint route
  to_endpoint-route t verb url h =
      let (r, run, found) = get-view t url h.width in
      elim found [ inl (e, w) ↦ rw (run, e, w) | inr (p, c, e, d, w) ↦ rw (run, e, w, ◌>>=◌, d) ]

  match_verb-append :
      (v : Bytes) (us : List Url) (u : Url)
      → match_verb v (us ++ u ∷ [])
        ≡ or_else (match_verb v us) (if eq_key u.verb v then some u.e else none)
  unfolding match_verb eq_key
  match_verb-append v [] u = ground (arith, st.biseq_decides u.verb v)
  match_verb-append v (w ∷ us) u =
      ground (arith, st.biseq_decides w.verb v, match_verb-append v us u)

  -- What a successful registration does: the first endpoint of a verb and a url stays.
  pub record Adds (t : Table) (e : ℕ) (verb url : Bytes) (r : Rc × Table) : Type 0 where
    pub code : r.0 ≡ ok
    pub table : IsTable r.1
    pub routes :
        (v u : Bytes)
        → route r.1 v u
          ≡ or_else (route t v u) (if eq_key url u && eq_key verb v then some e else none)

  match_verb-one :
      (v : Bytes) (u : Url) → match_verb v (u ∷ []) ≡ (if eq_key u.verb v then some u.e else none)
  unfolding match_verb eq_key
  match_verb-one v u = ground (arith, st.biseq_decides u.verb v)

  node-Adds :
      (t : Table) (e : ℕ) (verb url : Bytes) (p : Ptr) (c : Chain)
      → IsTable t
      → get t url ≡ done (some p)
      → view t url ≡ some c
      → Adds t e verb url (ok, store t p (link c (record { verb = verb; e = e })))
  unfolding link route
  node-Adds t e verb url p c h at w =
      let u : Url = record { verb = verb; e = e } in
      let stored = λ (q : Bytes). view-store t url q p (link c u) h.width at in
      record {
        code = refl;
        table = record {
          width = unfold store in rw length-set h.width;
          setter = unfold store in h.setter;
        };
        routes = λ v q. rw (stored q) (
            ground (
              arith,
              match_verb-append v (c.first ∷ c.next) u,
              eq_key_iff url q,
              or_else-none (match_chain v (view t q)),
            ));
      }

  first-Adds :
      (t : Table) (e : ℕ) (verb url : Bytes) (r : Rc × Table)
      → IsTable t
      → view t url ≡ none
      → Puts t url (record { first = record { verb = verb; e = e }; next = [] }) r
      → Adds t e verb url r
  unfolding route
  first-Adds t e verb url r h w new =
      let u : Url = record { verb = verb; e = e } in
      record {
        code = new.code;
        table = record { width = rw new.width h.width; setter = rw new.setter h.setter };
        routes = λ v q. rw (new.reads q) (
            ground (
              arith,
              match_verb-one v u,
              eq_key_iff url q,
              or_else-none (view t q),
              or_else-none (match_chain v (view t q)),
            ));
      }

  -- Whether the allocations succeed that a registration makes: a node for a url that the table has,
  -- an element for a new one.
  abbrev pub allocated : Allocs → Option Chain → Bool
  allocated m none = m.key && m.grown
  allocated m (some c) = m.node

  -- Either the registration is made, or nothing is changed.
  abbrev pub Entered : Bool → Table → ℕ → Bytes → Bytes → Run (Rc × Table) → Type 0
  Entered true t e verb url run = Returns run (Adds t e verb url)
  Entered false t e verb url run = run ≡ done (failed, t)

  new-Entered :
      ⦃fl : Floats⦄ (key grown : Bool) (t : Table) (e : ℕ) (verb url : Bytes)
      → IsTable t
      → view t url ≡ none
      → Entered (key && grown) t e verb url (put key grown t url (record { verb = verb; e = e }))
  new-Entered false grown t e verb url h w = put-failed false grown t url _ h.width (inl refl)
  new-Entered true false t e verb url h w = put-failed true false t url _ h.width (inl refl)
  new-Entered true true t e verb url h w =
      let (r, run, p) = put-Puts t url _ _ h.width (h.setter (record { verb = verb; e = e })) in
      (r, run, first-Adds t e verb url r h w p)

  node-Entered :
      (node : Bool) (t : Table) (e : ℕ) (verb url : Bytes) (p : Ptr) (c : Chain)
      → IsTable t
      → get t url ≡ done (some p)
      → view t url ≡ some c
      → deref t p ≡ some c
      → Entered node t e verb url (add_node node t p (record { verb = verb; e = e }))
  unfolding add_node
  node-Entered false t e verb url p c h at w d = refl
  node-Entered true t e verb url p c h at w d =
      (_, rw (d, add_node), node-Adds t e verb url p c h at w)

  enter-Entered :
      ⦃fl : Floats⦄ (m : Allocs) (t : Table) (e : ℕ) (verb url : Bytes)
      → IsTable t
      → Entered
          (allocated m (view t url))
          t
          e
          verb
          url
          (enter m t (record { verb = verb; e = e }) url (length url))
  unfolding enter
  enter-Entered m t e verb url h =
      let (r, run, found) = get-view t url h.width in
      elim found [
        | inl (n, w) ↦
            rw (take-all (length url) url (omega arith), run, n, w)
              (new-Entered m.key m.grown t e verb url h w)
        | inr (p, c, n, d, w) ↦
            rw (take-all (length url) url (omega arith), run, n, w)
              (node-Entered m.node t e verb url p c h (rw n at run) w d)
      ]

  -- `fra_end_url_add` on every branch, at a table that `fra_p_url_ht_get` made. It succeeds exactly
  -- if its allocations do and the url is shorter than 512 bytes: then the pair of the verb and the
  -- url leads to the endpoint, unless it led to one before, and no other pair is touched. Else the
  -- table is as it was.
  pub add-Entered :
      ⦃fl : Floats⦄ (m : Allocs) (t : Table) (e : ℕ) (verb url : Bytes)
      → IsTable t
      → Entered
          (m.verb && (ltb (length url) max_endpoint_length && allocated m (view t url)))
          t
          e
          verb
          url
          (add m t e verb url)
  unfolding add
  add-Entered m t e verb url h = elim (Bool-cases m.verb) [
    | inl v ↦ elim (Bool-cases (ltb (length url) max_endpoint_length)) [
      | inl short ↦
          let whole : strnlen url max_endpoint_length ≡ length url =
            omega (arith, ltb→lt (length url) 512 short) in
          simp (v, whole, short) (enter-Entered m t e verb url h)
      | inr long ↦
          let cut : ltb (strnlen url max_endpoint_length) max_endpoint_length ≡ false =
            omega (tests, ltb→le (length url) 512 long) in
          simp (v, cut, long)
    ]
    | inr v ↦ simp v
  ]
