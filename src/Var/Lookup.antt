-- ===== src/Var/Lookup.antt =====
-- `var_get` as a lookup in the registered variables: the global ones first, then those of the endpoint.
use fast_cgi_rest_api.Common.{
  ℕ, ◌+◌, ◌-◌, ◌<◌, ◌≡◌, ◌≢◌, refl, sym, ap, ◌∙◌, ◌≤◌, ◌⊎◌, ◌==◌, ltb→lt, true, Option, none, some,
  List, [], ◌∷◌, ◌++◌, arith, inl, inr, or_else, Bool-cases, if◌then◌else◌, length, take, ltb,
  lt→ltb, tests, ok, done, ◌>>=◌, Returns,
}
use fast_cgi_rest_api.Common.Sys.{Bytes, Strings, Floats}
use fast_cgi_rest_api.Ht.{get}
use fast_cgi_rest_api.Ht.View.{view, get-view}
use fast_cgi_rest_api.Ht.Chain.{eq_key, eq_key_refl}
use fast_cgi_rest_api.Var.{
  Var, VarMap, size_max, Store, reg, Request, Mode, report, expect, type_matches, located, var_of,
  endpoint_var, var_get,
}
use fast_cgi_rest_api.Var.Layout.{
  Entry, entry_of, entry_of-append, var_of_entry, IsStore, reg-Registered, entry,
}

module _ ⦃st : Strings⦄ where
  -- A map that is absent has no variables.
  abbrev pub view_of : Option VarMap → Bytes → Option Var
  view_of none name = none
  view_of (some map) name = view map name

  abbrev pub HasBuckets : Option VarMap → Type 0
  HasBuckets none = Unit {0}
  HasBuckets (some map) = 0 < length map.buck

  abbrev pub located? : Mode → ℕ → Option Var → Option (ℕ × Bytes)
  located? mode store none = none
  located? mode store (some v) = located mode store v

  -- What a lookup finds: a variable of the endpoint only if no global one has the name.
  abbrev pub endpoint_found : Option VarMap → Option ℕ → Mode → Bytes → Option (ℕ × Bytes)
  endpoint_found map none mode name = none
  endpoint_found map (some store) mode name = located? mode store (view_of map name)

  abbrev pub found : Request → Mode → Bytes → Option Var → Option (ℕ × Bytes)
  found r mode name (some v) = located mode r.req_store v
  found r mode name none = endpoint_found r.endpoint r.endpoint_store mode name

  var_of-view :
      (map : Option VarMap) (name : Bytes)
      → HasBuckets map
      → var_of map name ≡ done (view_of map name)
  unfolding var_of get
  var_of-view none name h = refl
  var_of-view (some map) name h =
      let (r, run, at) = get-view map name h in
      elim at [ inl (e, w) ↦ rw (run, e, w) | inr (p, v, e, d, w) ↦ rw (run, e, w, ◌>>=◌, d) ]

  endpoint_tail :
      (mode : Mode) (a : ℕ) (o : Option Var)
      → (done o >>= λ v. elim v [ none ↦ done none | some v ↦ done (located mode a v) ])
        ≡ done (located? mode a o)
  endpoint_tail mode a none = refl
  endpoint_tail mode a (some v) = refl

  endpoint_var-found :
      (map : Option VarMap) (store : Option ℕ) (mode : Mode) (name : Bytes)
      → HasBuckets map
      → endpoint_var map store mode name ≡ done (endpoint_found map store mode name)
  unfolding endpoint_var
  endpoint_var-found none none mode name h = refl
  endpoint_var-found none (some a) mode name h = refl
  endpoint_var-found (some map) none mode name h = refl
  endpoint_var-found (some map) (some a) mode name h =
      rw (var_of-view (some map) name h) (endpoint_tail mode a (view map name))

  var_get_tail :
      (r : Request) (mode : Mode) (name : Bytes) (o : Option Var)
      → HasBuckets r.endpoint
      → (done o >>= λ v. elim v [
        | some v ↦ done (located mode r.req_store v)
        | none ↦ endpoint_var r.endpoint r.endpoint_store mode name
      ])
        ≡ done (found r mode name o)
  var_get_tail r mode name none h = endpoint_var-found r.endpoint r.endpoint_store mode name h
  var_get_tail r mode name (some v) h = refl

  -- What a caller asks of the type of a variable: that it is the one named, with the length of the literal,
  -- or nothing.
  abbrev pub Wants : Mode → Var → Type 0
  Wants report v = Unit {0}
  Wants (expect type type_len) v = (type_len ≡ length v.type + 1) × (type ≡ v.type)

  -- The address and the type of a variable in a block, if its type is the one that is asked for, else NULL.
  abbrev pub Tested : Mode → ℕ → Var → Option (ℕ × Bytes) → Type 0
  Tested mode store v o =
      (Wants mode v × (o ≡ some (store + v.position, v.type))) ⊎ ((Wants mode v → ⊥) × (o ≡ none))

  -- The result of `var_get`.
  pub data Outcome (glob : Option VarMap) (r : Request) (name : Bytes) (name_len : ℕ) (mode : Mode)
      (o : Option (ℕ × Bytes)) : Type 0 where
    no_name : name_len ≤ 1 → o ≡ none → Outcome glob r name name_len mode o
    global :
        (v : Var)
        → 1 < name_len
        → view_of glob (take (name_len - 1) name) ≡ some v
        → Tested mode r.req_store v o
        → Outcome glob r name name_len mode o
    local :
        (v : Var) (store : ℕ)
        → 1 < name_len
        → view_of glob (take (name_len - 1) name) ≡ none
        → r.endpoint_store ≡ some store
        → view_of r.endpoint (take (name_len - 1) name) ≡ some v
        → Tested mode store v o
        → Outcome glob r name name_len mode o
    nowhere :
        1 < name_len
        → view_of glob (take (name_len - 1) name) ≡ none
        → (r.endpoint_store ≡ none) ⊎ (view_of r.endpoint (take (name_len - 1) name) ≡ none)
        → o ≡ none
        → Outcome glob r name name_len mode o

  located-Tested : (mode : Mode) (store : ℕ) (v : Var) → Tested mode store v (located mode store v)
  unfolding located type_matches
  located-Tested report store v = inl (tt, refl)
  located-Tested (expect type n) store v = elim (Bool-cases (n == length v.type + 1)) [
    | inr e ↦ inr ((λ w. ground (arith, e, w.0)), rw (located, type_matches, e) refl)
    | inl e ↦ elim (st.biseqcstr_decides v.type type) [
      | inl (d, same) ↦ inl ((ground (arith, e), sym same), rw (located, type_matches, e, d) refl)
      | inr (d, other) ↦ inr ((λ w. other (sym w.1)), rw (located, type_matches, e, d) refl)
    ]
  ]

  found_outcome :
      (glob : Option VarMap) (r : Request) (name : Bytes) (name_len : ℕ) (mode : Mode)
      (o : Option Var) (store : Option ℕ) (v : Option Var)
      → 1 < name_len
      → view_of glob (take (name_len - 1) name) ≡ o
      → r.endpoint_store ≡ store
      → view_of r.endpoint (take (name_len - 1) name) ≡ v
      → Outcome glob r name name_len mode (found r mode (take (name_len - 1) name) o)
  found_outcome glob r name n mode (some x) store v h g s e =
      global x h g (located-Tested mode r.req_store x)
  found_outcome glob r name n mode none none v h g s e = nowhere h g (inl s) (rw s refl)
  found_outcome glob r name n mode none (some a) none h g s e = nowhere h g (inr e) (rw (s, e) refl)
  found_outcome glob r name n mode none (some a) (some x) h g s e =
      local x a h g s e (rw (s, e) (located-Tested mode a x))

  var_get-located :
      (glob : Option VarMap) (r : Request) (name : Bytes) (name_len : ℕ) (mode : Mode)
      → HasBuckets glob
      → HasBuckets r.endpoint
      → var_get glob r name name_len mode
        ≡ done (
            if ltb 0 (name_len - 1)
            then found r mode (take (name_len - 1) name) (view_of glob (take (name_len - 1) name))
            else none)
  unfolding var_get
  var_get-located glob r name name_len mode hg he =
      let key = take (name_len - 1) name in
      elim (Bool-cases (ltb 0 (name_len - 1))) [
        | inr e ↦ rw e
        | inl e ↦ rw (e, var_of-view glob key hg) (var_get_tail r mode key (view_of glob key) he)
      ]

  -- `var_get` on every branch, for maps with buckets. A name needs at least one character before its NUL.
  -- A global variable of that name is looked at first and hides one of the endpoint, whose block is looked
  -- at only if there is one. The result is the address of the variable in its block, with its type, if the
  -- caller asks for no type or for that one with its length; else it is NULL, with no further search.
  pub var_get-found :
      (glob : Option VarMap) (r : Request) (name : Bytes) (name_len : ℕ) (mode : Mode)
      → HasBuckets glob
      → HasBuckets r.endpoint
      → Returns (var_get glob r name name_len mode) (Outcome glob r name name_len mode)
  var_get-found glob r name n mode hg he =
      let run = var_get-located glob r name n mode hg he in
      elim (Bool-cases (ltb 0 (n - 1))) [
        | inr e ↦ (none, rw e at run, no_name (ground (arith, e)) refl)
        | inl e ↦ (
          found r mode (take (n - 1) name) (view_of glob (take (n - 1) name)),
          rw e at run,
          found_outcome glob r name n mode _ _ _ (omega (arith, ltb→lt 0 (n - 1) e)) refl refl refl,
        )
      ]

  take-append : (xs ys : Bytes) → take (length xs) (xs ++ ys) ≡ xs
  take-append [] ys = refl
  take-append (x ∷ xs) ys = ap (◌∷◌ x) (take-append xs ys)

  located_same :
      (store : ℕ) (v : Var)
      → located (expect v.type (length v.type + 1)) store v ≡ some (store + v.position, v.type)
  unfolding located type_matches
  located_same store v = ground (arith, st.biseqcstr_decides v.type v.type)

  located_other :
      (store : ℕ) (v : Var) (type : Bytes)
      → type ≢ v.type
      → located (expect type (length type + 1)) store v ≡ none
  unfolding located type_matches
  located_other store v type n = ground (arith, st.biseqcstr_decides v.type type)

  ltb_named : (name : Bytes) → name ≢ [] → ltb 0 (length name) ≡ true
  ltb_named [] n = absurd (n refl)
  ltb_named (c ∷ name) n = omega tests

  get_registered :
      (s : Store) (es : List Entry) (name type : Bytes) (v : Var) (r : Request)
      → IsStore s es
      → name ≢ []
      → view s.map name ≡ some v
      → HasBuckets r.endpoint
      → var_get (some s.map) r (name ++ 0 ∷ []) (length name + 1) (expect type (length type + 1))
        ≡ done (located (expect type (length type + 1)) r.req_store v)
  get_registered s es name type v r h named seen he =
      let size : length name + 1 - 1 ≡ length name = omega arith in
      let some_char = ltb_named name named in
      var_get-located (some s.map) r (name ++ 0 ∷ []) (length name + 1) _ h.width he
      ∙ ap done (rw (size, some_char, take-append name (0 ∷ []), seen))

  -- A variable that is registered under a new name that is not empty, with memory and room in the
  -- block, and read back as a global one, for a request whose endpoint's map has buckets: the
  -- address is the one that the registration reserved, if the type is the registered one, and NULL
  -- if not.
  pub var_get-reg :
      ⦃fl : Floats⦄ (s : Store) (es : List Entry) (name type type' : Bytes) (size : ℕ) (r : Request)
      → IsStore s es
      → entry_of name es ≡ none
      → name ≢ []
      → s.size < size_max - size
      → HasBuckets r.endpoint
      → Returns
          (reg (record { type = true; key = true; grown = true }) s name type size)
          λ done_reg.
            (done_reg.0 ≡ ok)
            × (var_get
                  (some done_reg.1.map)
                  r
                  (name ++ 0 ∷ [])
                  (length name + 1)
                  (expect type (length type + 1))
                ≡ done (some (r.req_store + s.size, type)))
            × (type' ≢ type
                → var_get
                    (some done_reg.1.map)
                    r
                    (name ++ 0 ∷ [])
                    (length name + 1)
                    (expect type' (length type' + 1))
                  ≡ done none)
  var_get-reg s es name type type' size r h new named room he =
      let e = entry s name type size in
      let (t, run, (code, grows, h')) =
        rw (lt→ltb _ _ room) at (
          reg-Registered (record { type = true; key = true; grown = true }) s es name type size
            h) in
      let first : or_else (entry_of name es) (if eq_key name name then some e else none) ≡ some e =
        rw (new, eq_key_refl name) in
      let seen : view t.1.map name ≡ some e.var =
        h'.reads name ∙ ap var_of_entry (entry_of-append name es e ∙ first) in
      let at =
        λ (want : Bytes). get_registered t.1 (es ++ e ∷ []) name want e.var r h' named seen he in
      (
        t,
        run,
        (
          code,
          at type ∙ ap done (located_same r.req_store e.var),
          λ n. at type' ∙ ap done (located_other r.req_store e.var type' n),
        ),
      )
