-- ===== src/Hook/Register.antt =====
-- `hook_reg` on a table of lists, and sequences of its calls.
use fast_cgi_rest_api.Common.{
  ℕ, zero, suc, ◌<◌, ◌≤◌, ◌≡◌, ◌≢◌, Bool, true, false, some, List, [], ◌∷◌, arith, ◌⊎◌, inl, inr,
  Bool-cases, Rc, ok, failed, length, get_elem?, get_elem?-some, set, ltb, tests, ◌==◌,
}
use fast_cgi_rest_api.Common.Sys.{Floats}
use fast_cgi_rest_api.Hook.{Hooks, Table, insert, hook_reg, new_table}
use fast_cgi_rest_api.Hook.Order.{IsOrdered, Splits, insert-Splits, Splits-IsOrdered}

module _ ⦃fl : Floats⦄ where
  -- All lists of a table are ordered.
  abbrev pub TableIsOrdered : Table → Type 0
  TableIsOrdered [] = Unit {0}
  TableIsOrdered (l ∷ t) = IsOrdered l × TableIsOrdered t

  TableIsOrdered-get :
      (t : Table) (i : ℕ) (l : Hooks) → TableIsOrdered t → get_elem? t i ≡ some l → IsOrdered l
  TableIsOrdered-get [] i l o e = cc
  TableIsOrdered-get (k ∷ t) zero l o e = let e' : k ≡ l = cc in rw e' at (o.0)
  TableIsOrdered-get (k ∷ t) (suc i) l o e = TableIsOrdered-get t i l o.1 e

  TableIsOrdered-set :
      (t : Table) (i : ℕ) (l : Hooks) → TableIsOrdered t → IsOrdered l → TableIsOrdered (set t i l)
  TableIsOrdered-set [] i l o h = tt
  TableIsOrdered-set (k ∷ t) zero l o h = (h, o.1)
  TableIsOrdered-set (k ∷ t) (suc i) l o h = (o.0, TableIsOrdered-set t i l o.1 h)

  -- `hook_reg` on a table of `type_max` lists: on every failure the table is as it was.
  pub data Registered (t : Table) (type callback : ℕ) (priority : fl.F) (allocated : Bool)
      : Rc × Table → Type 0 where
    refused :
        (r : Rc × Table)
        → r ≡ (failed, t)
        → (length t ≤ type) ⊎ (callback ≡ 0) ⊎ (allocated ≡ false)
        → Registered t type callback priority allocated r
    entered :
        (r : Rc × Table) (l l' : Hooks)
        → type < length t
        → callback ≢ 0
        → allocated ≡ true
        → get_elem? t type ≡ some l
        → r ≡ (ok, set t type l')
        → Splits (record { callback = callback; priority = priority }) l l'
        → Registered t type callback priority allocated r

  -- `hook_reg` on every branch, at a table that it or `calloc` made. It succeeds exactly if the type is
  -- one of the table, the callback is not NULL and `malloc` succeeds: then the new node stands in the
  -- list of its type where `Splits` says, and no other list is touched.
  pub hook_reg-Registered :
      (a : Bool) (t : Table) (type callback : ℕ) (priority : fl.F)
      → TableIsOrdered t
      → Registered t type callback priority a (hook_reg a t type callback priority (length t))
  unfolding hook_reg
  hook_reg-Registered a t type callback priority o = elim (Bool-cases (ltb type (length t))) [
    | inr big ↦ refused _ (simp big) (inl (omega tests))
    | inl small ↦ elim (Bool-cases (callback == 0)) [
      | inl null ↦ refused _ (simp (small, null)) (inr (inl (ground arith)))
      | inr call ↦ elim (Bool-cases a) [
        | inr full ↦ refused _ (simp (small, call, full)) (inr (inr full))
        | inl room ↦
            let (l, at) = get_elem?-some t type (omega tests) in
            entered _ l (insert (record { callback = callback; priority = priority }) l)
              (omega tests) (ground arith) room at (simp (small, call, room, at))
              (insert-Splits _ l (TableIsOrdered-get t type l o at))
      ]
    ]
  ]

  Registered-TableIsOrdered :
      (t : Table) (type callback : ℕ) (priority : fl.F) (a : Bool) {r : Rc × Table}
      → TableIsOrdered t
      → Registered t type callback priority a r
      → TableIsOrdered r.1
  Registered-TableIsOrdered t type callback priority a o (refused r e why) = rw e o
  Registered-TableIsOrdered t type callback priority a o (entered r l l' small c room at e s) =
      rw e (
        TableIsOrdered-set t type l' o
          (Splits-IsOrdered _ l l' (TableIsOrdered-get t type l o at) s))

  pub hook_reg-TableIsOrdered :
      (a : Bool) (t : Table) (type callback : ℕ) (priority : fl.F)
      → TableIsOrdered t
      → TableIsOrdered (hook_reg a t type callback priority (length t)).1
  hook_reg-TableIsOrdered a t type callback priority o =
      Registered-TableIsOrdered t type callback priority a o
        (hook_reg-Registered a t type callback priority o)

  new_table-TableIsOrdered : (count : ℕ) → TableIsOrdered (new_table count)
  unfolding new_table
  new_table-TableIsOrdered zero = tt
  new_table-TableIsOrdered (suc n) = (tt, new_table-TableIsOrdered n)

  -- A call of `hook_reg`: the type, the callback, the priority, and whether `malloc` succeeds.
  abbrev pub Call : Type 0
  Call = ℕ × ℕ × fl.F × Bool

  unfoldable pub reg_all : Table → List Call → Table
  reg_all t [] = t
  reg_all t ((type, callback, priority, a) ∷ calls) =
      reg_all (hook_reg a t type callback priority (length t)).1 calls

  reg_all-ordered :
      (calls : List Call) (t : Table) → TableIsOrdered t → TableIsOrdered (reg_all t calls)
  unfolding reg_all
  reg_all-ordered [] t o = o
  reg_all-ordered ((type, callback, priority, a) ∷ calls) t o =
      reg_all-ordered calls _ (hook_reg-TableIsOrdered a t type callback priority o)

  -- After any sequence of calls, failed ones included, every list of a table is ordered by priority.
  pub reg_all-TableIsOrdered :
      (count : ℕ) (calls : List Call) → TableIsOrdered (reg_all (new_table count) calls)
  reg_all-TableIsOrdered count calls =
      reg_all-ordered calls (new_table count) (new_table-TableIsOrdered count)
