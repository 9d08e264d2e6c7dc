-- ===== src/Ht/Client.antt =====
-- What a caller of src/ht.c can observe over any sequence of calls, against a plain map from keys to
-- values.
use fast_cgi_rest_api.Common.{
  ℕ, ◌<◌, ◌≡◌, refl, ap, ◌∙◌, fun_ext, Bool, true, false, ◌&&◌, Option, none, some, List, [], ◌∷◌,
  arith, inl, inr, or_else, if◌then◌else◌, length, length-set, Rc, ok, failed, Run, done, fault,
  ◌>>=◌, Returns,
}
use fast_cgi_rest_api.Common.Sys.{Bytes, Strings, Floats}
use fast_cgi_rest_api.Ht
use fast_cgi_rest_api.Ht.{Ht, Ptr, new, put, deref, store}
use fast_cgi_rest_api.Ht.Chain.{eq_key}
use fast_cgi_rest_api.Ht.Fresh.{new-IsFresh}
use fast_cgi_rest_api.Ht.View.{view, put-Puts, put-failed, get-view, view-store}

-- The calls of `fra_p_ht_set`, with what its two allocations return, of `fra_p_ht_get`, and of
-- `fra_p_ht_get` with a write through the pointer, unless it is NULL.
pub data Call (A V : Type 0) : Type 0 where
  set : (key_alloc grown : Bool) → Bytes → A → Call A V
  get : Bytes → Call A V
  assign : Bytes → V → Call A V

-- A code, or the value that the returned pointer led to.
pub data Seen (V : Type 0) : Type 0 where
  code : Rc → Seen V
  value : Option V → Seen V

-- The same calls on a map.
abbrev pub KeyMap : Type 0 → Type 0
KeyMap V = Bytes → Option V

module _ {V : Type 0} ⦃st : Strings⦄ where
  abbrev pub add_new : KeyMap V → Bytes → V → KeyMap V
  add_new m key v q = or_else (m q) (if eq_key key q then some v else none)

  abbrev pub overwrite : KeyMap V → Bytes → V → KeyMap V
  overwrite m key v q = if eq_key key q then some v else m q

module _ {A V : Type 0} ⦃st : Strings⦄ where
  unfoldable pub step : (A → Option V) → Call A V → KeyMap V → Seen V × KeyMap V
  step set_value (set key_alloc grown key arg) m =
      let entered : Seen V × KeyMap V = elim (set_value arg) [
        | none ↦ (code failed, m)
        | some v ↦ (code ok, add_new m key v)
      ] in
      if key_alloc && grown then entered else (code failed, m)
  step set_value (get key) m = (value (m key), m)
  step set_value (assign key w) m = elim (m key) [
    | none ↦ (value none, m)
    | some v ↦ (value (some v), overwrite m key w)
  ]

  unfoldable pub replay : (A → Option V) → List (Call A V) → KeyMap V → List (Seen V) × KeyMap V
  unfolding step
  replay set_value [] m = ([], m)
  replay set_value (c ∷ calls) m =
      let (seen, m') = step set_value c m in
      let (rest, m'') = replay set_value calls m' in (seen ∷ rest, m'')

module _ {A V : Type 0} ⦃st : Strings⦄ ⦃fl : Floats⦄ where
  -- What the table does; to read through a pointer into no element is undefined.
  unfoldable pub call : Call A V → Ht A V → Run (Seen V × Ht A V)
  call (set key_alloc grown key arg) ht =
      put key_alloc grown ht key arg >>= λ r. done (code r.0, r.1)
  call (get key) ht = Ht.get ht key >>= λ p. elim p [
    | none ↦ done (value none, ht)
    | some p ↦ elim (deref ht p) [ none ↦ fault | some v ↦ done (value (some v), ht) ]
  ]
  call (assign key w) ht = Ht.get ht key >>= λ p. elim p [
    | none ↦ done (value none, ht)
    | some p ↦ elim (deref ht p) [ none ↦ fault | some v ↦ done (value (some v), store ht p w) ]
  ]

  unfoldable pub run : List (Call A V) → Ht A V → Run (List (Seen V) × Ht A V)
  unfolding call
  run [] ht = done ([], ht)
  run (c ∷ calls) ht = do
    (seen, ht') ← call c ht
    (rest, ht'') ← run calls ht'
    done (seen ∷ rest, ht'')

  -- A table after some calls, which answered like the map.
  pub record Like (ht : Ht A V) {S : Type 0} (r : S × Ht A V) (m : S × KeyMap V) : Type 0 where
    pub seen : r.0 ≡ m.0
    pub reads : view r.1 ≡ m.1
    pub width : length r.1.buck ≡ length ht.buck
    pub setter : r.1.set_value ≡ ht.set_value

  set-Like :
      (ht : Ht A V) (key : Bytes) (arg : A) (o : Option V)
      → 0 < length ht.buck
      → ht.set_value arg ≡ o
      → Returns
          (call (set true true key arg) ht)
          λ r. Like ht r (step ht.set_value (set true true key arg) (view ht))
  unfolding call step
  set-Like ht key arg none h e = (
    (code failed, ht),
    rw (put-failed true true ht key arg h (inr e)),
    rw (step, e) (record { seen = refl; reads = refl; width = refl; setter = refl }),
  )
  set-Like ht key arg (some v) h e =
      let (r, run, p) = put-Puts ht key arg v h e in
      (
        (code r.0, r.1),
        rw run,
        rw (step, e)
            (record {
              seen = ap code p.code;
              reads = fun_ext p.reads;
              width = p.width;
              setter = p.setter;
            }),
      )

  unchanged : (ht : Ht A V) (x : Seen V) → Like ht (x, ht) (x, view ht)
  unchanged ht x = record { seen = refl; reads = refl; width = refl; setter = refl }

  call-Like :
      (ht : Ht A V) (c : Call A V)
      → 0 < length ht.buck
      → Returns (call c ht) λ r. Like ht r (step ht.set_value c (view ht))
  unfolding call step
  call-Like ht (set true true key arg) h = set-Like ht key arg (ht.set_value arg) h refl
  call-Like ht (set true false key arg) h =
      (_, rw (put-failed true false ht key arg h (inl refl)), unchanged ht (code failed))
  call-Like ht (set false grown key arg) h =
      (_, rw (put-failed false grown ht key arg h (inl refl)), unchanged ht (code failed))
  call-Like ht (get key) h =
      let (r, looked, cases) = get-view ht key h in
      elim cases [
        | inl (missing, e) ↦
            ((value none, ht), rw (looked, missing), rw (step, e) (unchanged ht (value none)))
        | inr (p, v, found, at, e) ↦ (
          (value (some v), ht),
          rw (looked, found, ◌>>=◌, at),
          rw (step, e) (unchanged ht (value (some v))),
        )
      ]
  call-Like ht (assign key w) h =
      let (r, looked, cases) = get-view ht key h in
      elim cases [
        | inl (missing, e) ↦
            ((value none, ht), rw (looked, missing), rw (step, e) (unchanged ht (value none)))
        | inr (p, v, found, at, e) ↦ (
          (value (some v), store ht p w),
          rw (looked, found, ◌>>=◌, at),
          rw (step, e)
              (record {
                seen = refl;
                reads = fun_ext λ q. view-store ht key q p w h (looked ∙ ap done found);
                width = unfold store in length-set ht.buck _ _;
                setter = unfold store in refl;
              }),
        )
      ]

  run-Like :
      (ht : Ht A V) (calls : List (Call A V))
      → 0 < length ht.buck
      → Returns (run calls ht) λ r. Like ht r (replay ht.set_value calls (view ht))
  unfolding run replay
  run-Like ht [] h = (_, refl, record { seen = refl; reads = refl; width = refl; setter = refl })
  run-Like ht (c ∷ calls) h =
      let (r, ran, like) = call-Like ht c h in
      let (r', ran', like') = run-Like r.1 calls (omega (arith, like.width)) in
      let m = step ht.set_value c (view ht) in
      let same : replay r.1.set_value calls (view r.1) ≡ replay ht.set_value calls m.1 =
        cc (like.setter, like.reads) in
      (
        (r.0 ∷ r'.0, r'.1),
        rw (ran, ran'),
        record {
          seen = cc (like.seen, like'.seen, ap (λ x. x.0) same);
          reads = like'.reads ∙ ap (λ x. x.1) same;
          width = like'.width ∙ like.width;
          setter = like'.setter ∙ like.setter;
        },
      )

  -- A table of `fra_p_ht_new` with buckets, under any calls of `fra_p_ht_set` and `fra_p_ht_get` and any
  -- writes through the pointer of a `fra_p_ht_get` that are made directly after it, whatever the allocations and `set_value` do. No call
  -- is undefined, and all answer like the same calls on a map that is empty at first: a set takes effect
  -- if it has memory, `set_value` makes a value and the key has none yet, and a write changes one key.
  pub run-replay :
      (count : ℕ) (set_value : A → Option V) (calls : List (Call A V))
      → 0 < count
      → (ht : Ht A V) × (new true true count set_value ≡ some ht)
        × (Returns (run calls ht) λ r.
            (r.0 ≡ (replay set_value calls (λ q. none)).0)
            × (view r.1 ≡ (replay set_value calls (λ q. none)).1))
  run-replay count set_value calls h =
      let (ht, made, fresh) = new-IsFresh count set_value h in
      let (r, ran, like) = run-Like ht calls fresh.width in
      let empty : view ht ≡ (λ q. none) = fun_ext fresh.reads in
      let same : replay ht.set_value calls (view ht) ≡ replay set_value calls (λ q. none) =
        cc (fresh.setter, empty) in
      (ht, made, (r, ran, (like.seen ∙ ap (λ x. x.0) same, like.reads ∙ ap (λ x. x.1) same)))
