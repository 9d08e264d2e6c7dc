-- ===== src/Hook/Order.antt =====
-- The order that `hook_reg` keeps: by priority, and by registration where priorities are equal.
use fast_cgi_rest_api.Common.{
  ◌≡◌, refl, ap, true, false, [], ◌∷◌, ◌++◌, arith, inl, inr, Bool-cases, All,
}
use fast_cgi_rest_api.Common.Sys.{Floats}
use fast_cgi_rest_api.Hook.{Hook, Hooks, insert_from, insert}

module _ ⦃fl : Floats⦄ where
  -- `a` may stand before `b`
  abbrev pub Before : Hook fl.F → Hook fl.F → Type 0
  Before a b = fl.lt b.priority a.priority ≡ false

  abbrev pub IsOrdered : Hooks → Type 0
  IsOrdered [] = Unit {0}
  IsOrdered (h ∷ hs) = All (Before h) hs × IsOrdered hs

  -- The new node stands behind all nodes of its priority or a lower one, and before all others; the
  -- order of the old nodes is as it was.
  pub record Splits (new : Hook fl.F) (old result : Hooks) : Type 0 where
    pub front : Hooks
    pub back : Hooks
    pub before : old ≡ front ++ back
    pub after : result ≡ front ++ new ∷ back
    pub not_later : All (λ h. Before h new) front
    pub later : All (λ h. fl.lt new.priority h.priority ≡ true) back

  All-lt :
      (new next : Hook fl.F) (rest : Hooks)
      → fl.lt new.priority next.priority ≡ true
      → All (Before next) rest
      → All (λ h. fl.lt new.priority h.priority ≡ true) rest
  All-lt new next [] e a = tt
  All-lt new next (h ∷ rest) e (b, a) = (
    ground (arith, fl.lt_cotrans next.priority h.priority new.priority),
    All-lt new next rest e a,
  )

  insert_from-Splits :
      (new cur : Hook fl.F) (rest : Hooks)
      → IsOrdered (cur ∷ rest)
      → Before cur new
      → Splits new (cur ∷ rest) (insert_from new cur rest)
  unfolding insert_from
  insert_from-Splits new cur [] o b = record {
    front = cur ∷ [];
    back = [];
    before = refl;
    after = refl;
    not_later = (b, tt);
    later = tt;
  }
  insert_from-Splits new cur (next ∷ rest) (a, o) b =
      elim (Bool-cases (fl.lt new.priority next.priority)) [
        | inl e ↦ record {
          front = cur ∷ [];
          back = next ∷ rest;
          before = refl;
          after = rw e;
          not_later = (b, tt);
          later = (e, All-lt new next rest e o.0);
        }
        | inr e ↦
            let s = insert_from-Splits new next rest o e in
            record {
              front = cur ∷ s.front;
              back = s.back;
              before = ap (◌∷◌ cur) s.before;
              after = rw e (ap (◌∷◌ cur) s.after);
              not_later = (b, s.not_later);
              later = s.later;
            }
      ]

  pub insert-Splits : (new : Hook fl.F) (l : Hooks) → IsOrdered l → Splits new l (insert new l)
  unfolding insert
  insert-Splits new [] o = record {
    front = [];
    back = [];
    before = refl;
    after = refl;
    not_later = tt;
    later = tt;
  }
  insert-Splits new (h ∷ rest) o = elim (Bool-cases (fl.lt new.priority h.priority)) [
    | inl e ↦ record {
      front = [];
      back = h ∷ rest;
      before = refl;
      after = rw (e, insert);
      not_later = tt;
      later = (e, All-lt new h rest e o.0);
    }
    | inr e ↦
        let s = insert_from-Splits new h rest o e in
        record {
          front = s.front;
          back = s.back;
          before = s.before;
          after = rw e s.after;
          not_later = s.not_later;
          later = s.later;
        }
  ]

  All-append {κ} : (P : Hook fl.F → Type κ) (xs ys : Hooks) → All P xs → All P ys → All P (xs ++ ys)
  All-append P [] ys hx hy = hy
  All-append P (x ∷ xs) ys hx hy = (hx.0, All-append P xs ys hx.1 hy)

  All-split {κ} : (P : Hook fl.F → Type κ) (xs ys : Hooks) → All P (xs ++ ys) → All P xs × All P ys
  All-split P [] ys h = (tt, h)
  All-split P (x ∷ xs) ys h = let (a, b) = All-split P xs ys h.1 in ((h.0, a), b)

  All-Before :
      (new : Hook fl.F) (l : Hooks)
      → All (λ h. fl.lt new.priority h.priority ≡ true) l
      → All (Before new) l
  All-Before new [] a = tt
  All-Before new (h ∷ l) (e, a) = (fl.lt_asymm _ _ e, All-Before new l a)

  IsOrdered-middle :
      (new : Hook fl.F) (front back : Hooks)
      → IsOrdered (front ++ back)
      → All (λ h. Before h new) front
      → All (λ h. fl.lt new.priority h.priority ≡ true) back
      → IsOrdered (front ++ new ∷ back)
  IsOrdered-middle new [] back o f b = (All-Before new back b, o)
  IsOrdered-middle new (h ∷ front) back (a, o) (f, fs) b =
      let (x, y) = All-split (Before h) front back a in
      (All-append (Before h) front (new ∷ back) x (f, y), IsOrdered-middle new front back o fs b)

  pub Splits-IsOrdered :
      (new : Hook fl.F) (l l' : Hooks) → IsOrdered l → Splits new l l' → IsOrdered l'
  Splits-IsOrdered new l l' o s =
      rw s.after (IsOrdered-middle new s.front s.back (rw s.before at o) s.not_later s.later)
