-- ===== src/Var/Layout.antt =====
-- Where the registrations of a store put its variables: one behind the other, within the block.
use fast_cgi_rest_api.Common.{
  ℕ, ◌+◌, ◌-◌, ◌<◌, ◌≤◌, ◌≡◌, ◌≢◌, refl, sym, ap, subst, append-nil, append_assoc, ◌∙◌, Bool, true,
  false, ◌&&◌, Option, none, some, List, [], ◌∷◌, ◌++◌, arith, ◌⊎◌, inl, inr, or_else, Bool-cases,
  if◌then◌else◌, length, ltb, ltb→lt, Rc, ok, failed, Run, done, ◌>>=◌, Returns,
}
use fast_cgi_rest_api.Common.Sys.{Bytes, Strings, Floats}
use fast_cgi_rest_api.Ht.Chain.{eq_key, eq_key_iff}
use fast_cgi_rest_api.Ht.{put}
use fast_cgi_rest_api.Ht.View.{view, put-Puts, put-failed, Puts}
use fast_cgi_rest_api.Var.{Var, VarMap, size_max, add_size, var_set, Store, Allocs, after_set, reg}

-- A successful registration, as the caller made it, with the offset that it was given.
pub record Entry : Type 0 where
  pub name : Bytes
  pub var : Var
  pub size : ℕ

-- The entries fill the block from `start` to `stop`, in their order.
abbrev pub IsLaid : ℕ → List Entry → ℕ → Type 0
IsLaid start [] stop = start ≡ stop
IsLaid start (e ∷ es) stop = (e.var.position ≡ start) × IsLaid (start + e.size) es stop

IsLaid-le : (start : ℕ) (es : List Entry) (stop : ℕ) → IsLaid start es stop → start ≤ stop
IsLaid-le start [] stop h = omega arith
IsLaid-le start (e ∷ es) stop h = omega (arith, IsLaid-le (start + e.size) es stop h.1)

IsLaid-append :
    (start : ℕ) (es : List Entry) (stop : ℕ) (e : Entry)
    → IsLaid start es stop
    → e.var.position ≡ stop
    → IsLaid start (es ++ e ∷ []) (stop + e.size)
IsLaid-append start [] stop e h p = (omega arith, omega arith)
IsLaid-append start (d ∷ es) stop e h p = (h.0, IsLaid-append (start + d.size) es stop e h.1 p)

module _ ⦃st : Strings⦄ where
  -- The first entry with a name.
  unfoldable pub entry_of : Bytes → List Entry → Option Entry
  entry_of q [] = none
  entry_of q (e ∷ es) = let rest = entry_of q es in if eq_key e.name q then some e else rest

  abbrev pub var_of_entry : Option Entry → Option Var
  var_of_entry none = none
  var_of_entry (some e) = some e.var

  pub entry_of-append :
      (q : Bytes) (es : List Entry) (e : Entry)
      → entry_of q (es ++ e ∷ [])
        ≡ or_else (entry_of q es) (if eq_key e.name q then some e else none)
  unfolding entry_of
  entry_of-append q [] e = refl
  entry_of-append q (d ∷ es) e = ground (arith, entry_of-append q es e)

  -- A store whose successful registrations were `es`.
  pub record IsStore (s : Store) (es : List Entry) : Type 0 where
    pub width : 0 < length s.map.buck
    pub setter : (a : Var) → s.map.set_value a ≡ var_set a
    pub laid : IsLaid 0 es s.size
    pub bounded : s.size ≤ size_max
    pub reads : (q : Bytes) → view s.map q ≡ var_of_entry (entry_of q es)

  abbrev pub entry : Store → Bytes → Bytes → ℕ → Entry
  entry s name type size = record {
    name = name;
    var = record { type = type; position = s.size };
    size = size;
  }

  -- Either a registration takes the next bytes of the block, or nothing is changed.
  abbrev pub Registered : Bool → Store → List Entry → Bytes → Bytes → ℕ → Run (Rc × Store) → Type 0
  Registered true s es name type size run =
      Returns run λ r.
        (r.0 ≡ ok) × (r.1.size ≡ s.size + size) × IsStore r.1 (es ++ entry s name type size ∷ [])
  Registered false s es name type size run = run ≡ done (failed, s)

  put-IsStore :
      (s : Store) (es : List Entry) (name type : Bytes) (size : ℕ) (r : Rc × VarMap)
      → IsStore s es
      → s.size < size_max - size
      → Puts s.map name (record { type = type; position = s.size }) r
      → IsStore (after_set s size (ok, r.1)).1 (es ++ entry s name type size ∷ [])
  put-IsStore s es name type size r h room p =
      let e = entry s name type size in
      let no_wrap : add_size s.size size ≡ s.size + size = omega arith in
      record {
        width = rw p.width h.width;
        setter = rw p.setter h.setter;
        laid = rw no_wrap (IsLaid-append 0 es s.size e h.laid refl);
        bounded = omega arith;
        reads = λ q. rw (p.reads q, h.reads q, entry_of-append q es e) (ground arith);
      }

  put-Registered :
      ⦃fl : Floats⦄ (key grown : Bool) (s : Store) (es : List Entry) (name type : Bytes) (size : ℕ)
      → IsStore s es
      → s.size < size_max - size
      → Registered (key && grown) s es name type size (
          put key grown s.map name (record { type = type; position = s.size }) >>= λ r.
          done (after_set s size r))
  put-Registered false grown s es name type size h room =
      rw (put-failed false grown s.map name _ h.width (inl refl))
  put-Registered true false s es name type size h room =
      rw (put-failed true false s.map name _ h.width (inl refl))
  put-Registered true true s es name type size h room =
      let v : Var = record { type = type; position = s.size } in
      let ((rc, map), run, p) = put-Puts s.map name v v h.width (h.setter v) in
      (
        after_set s size (ok, map),
        rw (run, ◌>>=◌) (ap (λ c. done (after_set s size (c, map))) p.code),
        (refl, omega arith, put-IsStore s es name type size (rc, map) h room p),
      )

  -- `reg` on every branch, at a store of the registrations `es`. It succeeds exactly if its
  -- allocations do and the size of the block is less than `SIZE_MAX` minus that of the variable:
  -- then the variable takes the next bytes of the block, and a name keeps the variable of its first
  -- registration. Else nothing is changed.
  pub reg-Registered :
      ⦃fl : Floats⦄ (m : Allocs) (s : Store) (es : List Entry) (name type : Bytes) (size : ℕ)
      → IsStore s es
      → Registered
          (ltb s.size (size_max - size) && (m.type && (m.key && m.grown)))
          s
          es
          name
          type
          size
          (reg m s name type size)
  unfolding reg
  reg-Registered m s es name type size h = elim (Bool-cases (ltb s.size (size_max - size))) [
    | inr full ↦ simp full
    | inl room ↦ elim (Bool-cases m.type) [
      | inr no_type ↦ simp (room, no_type)
      | inl typed ↦
          simp (room, typed) (put-Registered m.key m.grown s es name type size h (ltb→lt _ _ room))
    ]
  ]

  entry_of-bounds :
      (q : Bytes) (start : ℕ) (es : List Entry) (stop : ℕ) (e : Entry)
      → IsLaid start es stop
      → entry_of q es ≡ some e
      → (start ≤ e.var.position) × (e.var.position + e.size ≤ stop)
  unfolding entry_of
  entry_of-bounds q start [] stop e h f = cc
  entry_of-bounds q start (d ∷ es) stop e (at, h) f =
      ground (arith, IsLaid-le _ es stop h, entry_of-bounds q (start + d.size) es stop e h)

  entry_of-disjoint :
      (p q : Bytes) (start : ℕ) (es : List Entry) (stop : ℕ) (x y : Entry)
      → p ≢ q
      → IsLaid start es stop
      → entry_of p es ≡ some x
      → entry_of q es ≡ some y
      → (x.var.position + x.size ≤ y.var.position) ⊎ (y.var.position + y.size ≤ x.var.position)
  unfolding entry_of
  entry_of-disjoint p q start [] stop x y n h f g = cc
  entry_of-disjoint p q start (d ∷ es) stop x y n (at, h) f g = ground (
    arith,
    eq_key_iff d.name p,
    eq_key_iff d.name q,
    entry_of-bounds p (start + d.size) es stop x h,
    entry_of-bounds q (start + d.size) es stop y h,
    entry_of-disjoint p q (start + d.size) es stop x y n h,
  )

  var_of_entry-some :
      (o : Option Entry) (v : Var)
      → var_of_entry o ≡ some v
      → (x : Entry) × (o ≡ some x) × (x.var ≡ v)
  var_of_entry-some none v e = cc
  var_of_entry-some (some x) v e = (x, refl, cc)

  -- The entry that the variable of a name comes from lies in the block.
  pub entry_of-view :
      (s : Store) (es : List Entry) (q : Bytes) (v : Var)
      → IsStore s es
      → view s.map q ≡ some v
      → (x : Entry) × (entry_of q es ≡ some x) × (x.var ≡ v) × (v.position + x.size ≤ s.size)
  entry_of-view s es q v h f =
      let (x, e, xv) = var_of_entry-some (entry_of q es) v (sym (h.reads q) ∙ f) in
      (x, e, xv, rw (← xv) (entry_of-bounds q 0 es s.size x h.laid e).1)

  -- Two names of a store have variables that lie in the block and do not overlap.
  pub vars_disjoint :
      (s : Store) (es : List Entry) (p q : Bytes) (v w : Var)
      → IsStore s es
      → p ≢ q
      → view s.map p ≡ some v
      → view s.map q ≡ some w
      → (x y : Entry) × (entry_of p es ≡ some x)
        × (entry_of q es ≡ some y)
        × (v.position + x.size ≤ s.size)
        × (w.position + y.size ≤ s.size)
        × ((v.position + x.size ≤ w.position) ⊎ (w.position + y.size ≤ v.position))
  vars_disjoint s es p q v w h n f g =
      let (x, e, xv, xb) = entry_of-view s es p v h f in
      let (y, d, yw, yb) = entry_of-view s es q w h g in
      (x, y, e, d, xb, yb, rw (← xv, ← yw) (entry_of-disjoint p q 0 es s.size x y n h.laid e d))

  -- Calls of `reg` on one store, each with its name, type, size and allocations.
  abbrev pub Call : Type 0
  Call = Bytes × Bytes × ℕ × Allocs

  unfoldable pub reg_all : ⦃fl : Floats⦄ → List Call → Store → Run Store
  reg_all [] s = done s
  reg_all ((name, type, size, m) ∷ calls) s = reg m s name type size >>= λ r. reg_all calls r.1

  -- The registrations that succeed, from a size of the block on: those whose allocations do and whose
  -- variable has room. Each gets the offset behind the ones before.
  unfoldable pub made : ℕ → List Call → List Entry
  made start [] = []
  made start ((name, type, size, m) ∷ calls) =
      let e : Entry = record {
        name = name;
        var = record { type = type; position = start };
        size = size;
      } in
      let more = e ∷ made (start + size) calls in
      let without = made start calls in
      if ltb start (size_max - size) && (m.type && (m.key && m.grown)) then more else without

  -- Any calls of `reg`, failed ones included, leave a store of its successful registrations.
  pub reg_all-IsStore :
      ⦃fl : Floats⦄ (calls : List Call) (s : Store) (es : List Entry)
      → IsStore s es
      → Returns (reg_all calls s) λ s'. IsStore s' (es ++ made s.size calls)
  unfolding reg_all made
  reg_all-IsStore [] s es h = (s, refl, subst (IsStore s) (sym (append-nil es)) h)
  reg_all-IsStore ((name, type, size, m) ∷ calls) s es h =
      let b = ltb s.size (size_max - size) && (m.type && (m.key && m.grown)) in
      let registered : Registered b s es name type size (reg m s name type size) =
        reg-Registered m s es name type size h in
      elim (Bool-cases b) [
        | inl works ↦
            let (r, run, (code, grows, h')) = rw works at registered in
            let e = entry s name type size in
            let (s', runs, out) = reg_all-IsStore calls r.1 (es ++ e ∷ []) h' in
            let ends : IsStore s' ((es ++ e ∷ []) ++ made (s.size + size) calls) =
              rw grows at out in
            (
              s',
              rw (reg_all, run, ◌>>=◌) runs,
              rw works (subst (IsStore s') (append_assoc es (e ∷ []) _) ends),
            )
        | inr fails ↦
            let run : reg m s name type size ≡ done (failed, s) = rw fails at registered in
            let (s', runs, out) = reg_all-IsStore calls s es h in
            (s', rw (reg_all, run, ◌>>=◌) runs, rw fails out)
      ]
