-- ===== src/Hook/Free.antt =====
-- What `fra_p_hook_free` frees of a table that registrations made.
use mathlib.Core.List.{Perm, perm_middle}
use mathlib.Core.List.Perm
use fast_cgi_rest_api.Common.{
  ℕ, zero, suc, ◌<◌, ◌≡◌, refl, ◌≢◌, true, some, [], ◌∷◌, ◌++◌, arith, flatten, append_assoc,
  length, get_elem?, set, Rc, done,
}
use fast_cgi_rest_api.Common.Sys.{Floats}
use fast_cgi_rest_api.Hook.{Hook, Hooks, Table, free, hook_reg}
use fast_cgi_rest_api.Hook.Register.{
  Registered, refused, entered, TableIsOrdered, hook_reg-Registered,
}

module _ ⦃fl : Floats⦄ where
  pub free-flatten : (t : Table) → free t (length t) ≡ done (flatten t)
  unfolding free flatten
  free-flatten [] = refl
  free-flatten (l ∷ t) = rw (free, free-flatten t)

  flatten-set :
      (t : Table) (i : ℕ) (front back : Hooks) (new : Hook fl.F)
      → get_elem? t i ≡ some (front ++ back)
      → Perm (flatten (set t i (front ++ new ∷ back))) (new ∷ flatten t)
  unfolding flatten
  flatten-set [] i front back new e = cc
  flatten-set (l ∷ t) zero front back new e =
      let e' : l ≡ front ++ back = cc in
      rw (e', append_assoc, append_assoc) (perm_middle front (back ++ flatten t))
  flatten-set (l ∷ t) (suc i) front back new e =
      Perm.trans (Perm.append (Perm.refl l) (flatten-set t i front back new e))
        (perm_middle l (flatten t))

  -- The nodes that `fra_p_hook_free` frees of two whole tables: those of the second are those of the
  -- first, and `new`.
  abbrev pub FreesOneMore : Table → Hook fl.F → Rc × Table → Type 0
  FreesOneMore t new r =
      (before after : Hooks) × (free t (length t) ≡ done before)
      × (free r.1 (length r.1) ≡ done after)
      × Perm after (new ∷ before)

  Registered-FreesOneMore :
      (t : Table) (type callback : ℕ) (priority : fl.F) {r : Rc × Table}
      → type < length t
      → callback ≢ 0
      → Registered t type callback priority true r
      → FreesOneMore t (record { callback = callback; priority = priority }) r
  Registered-FreesOneMore t type callback priority small c (refused r e why) = ground arith
  Registered-FreesOneMore t type callback priority small c (entered r l l' _ _ _ at e s) =
      let new : Hook fl.F = record { callback = callback; priority = priority } in
      let at' : get_elem? t type ≡ some (s.front ++ s.back) = rw (at, s.before) in
      rw (e, s.after)
        (
          flatten t,
          flatten (set t type (s.front ++ new ∷ s.back)),
          free-flatten t,
          free-flatten (set t type (s.front ++ new ∷ s.back)),
          flatten-set t type s.front s.back new at',
        )

  -- After a registration with memory, a type of the table and a callback that is not NULL,
  -- `fra_p_hook_free` of the whole table frees the new node once, and each node that it freed before as
  -- often as before.
  pub free-hook_reg :
      (t : Table) (type callback : ℕ) (priority : fl.F)
      → TableIsOrdered t
      → type < length t
      → callback ≢ 0
      → FreesOneMore t
          (record { callback = callback; priority = priority })
          (hook_reg true t type callback priority (length t))
  free-hook_reg t type callback priority o small c =
      Registered-FreesOneMore t type callback priority small c
        (hook_reg-Registered true t type callback priority o)
