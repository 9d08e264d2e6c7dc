-- ===== src/Conf/Sound.antt =====
-- What holds of the configuration of src/conf.c while it is loaded: the truth value, the strings, the
-- arrays, and plugins without a handle.
use fast_cgi_rest_api.Common.{
  ℕ, zero, suc, ◌≡◌, refl, Bool, true, false, Option, none, some, List, [], ◌∷◌, inl, inr, arith,
  Rc, ok, failed, Run, done, fault, if◌then◌else◌, not, All, ◌⊎◌, set, length, ◌==◌,
}
use fast_cgi_rest_api.Common.Int.{pos}
use fast_cgi_rest_api.Common.Sys.{Bytes}
use fast_cgi_rest_api.Pl.{Plugin, unset, pl_reset}
use fast_cgi_rest_api.Conf.Values.{
  Token, State, alloc, set_default, default_all, set_defaults, set_value, set_num, char_at,
  is_primitive,
}
use fast_cgi_rest_api.Conf.Env.{
  confs, thread_safe, Loaded, ended, undefined, spent, and_then, of_run, allocated,
}

-- The one variable is a truth value, the strings and arrays are `g` and `a`, and no plugin has a handle.
pub record Sound (g : List Bytes) (a : List (List Bytes)) (s : State) : Type 0 where
  pub flag : (s.num_or_bools ≡ pos 0 ∷ []) ⊎ (s.num_or_bools ≡ pos 1 ∷ [])
  pub plugins : All (λ (p : Plugin). p.h ≡ unset) s.plugins
  pub strings : s.g_strings ≡ g
  pub arrs : s.str_arrs ≡ a

module _ (g : List Bytes) (a : List (List Bytes)) where
  unfoldable pub Keeps : Loaded → Type 0
  Keeps (ended rc s) = Sound g a s
  Keeps undefined = Unit {0}
  Keeps spent = Unit {0}

  unfoldable pub KeepsRun : Run (Rc × State) → Type 0
  KeepsRun (done (rc, s)) = Sound g a s
  KeepsRun fault = Unit {0}

  pub ended-Keeps : (rc : Rc) (s : State) → Sound g a s → Keeps (ended rc s)
  unfolding Keeps
  ended-Keeps rc s h = h

  pub undefined-Keeps : Keeps undefined
  unfolding Keeps
  undefined-Keeps = tt

  pub done-Keeps : (rc : Rc) (s : State) → Sound g a s → KeepsRun (done (rc, s))
  unfolding KeepsRun
  done-Keeps rc s h = h

  pub fault-Keeps : KeepsRun fault
  unfolding KeepsRun
  fault-Keeps = tt

  Sound-mem : (s : State) (m : ℕ) → Sound g a s → Sound g a (record s { mem = m })
  Sound-mem s m h = record {
    flag = h.flag;
    plugins = h.plugins;
    strings = h.strings;
    arrs = h.arrs;
  }

  pub Sound-alloc : (s : State) → Sound g a s → Sound g a (alloc s).1
  unfolding alloc
  Sound-alloc s h = go s.mem
    where
      go :
          (m : ℕ)
          → Sound g a
              (elim m as (λ _. Bool × State) [
                | zero ↦ (false, s)
                | suc n ↦ (true, record s { mem = n })
              ]).1
      go zero = h
      go (suc n) = Sound-mem s n h

  pub if-Keeps : (c : Bool) (x y : Loaded) → Keeps x → Keeps y → Keeps (if c then x else y)
  if-Keeps true x y h h' = h
  if-Keeps false x y h h' = h'

  pub if-KeepsRun :
      (c : Bool) (x y : Run (Rc × State)) → KeepsRun x → KeepsRun y → KeepsRun (if c then x else y)
  if-KeepsRun true x y h h' = h
  if-KeepsRun false x y h h' = h'

  pub and_then-Keeps :
      (x : Loaded) (k : State → Loaded)
      → Keeps x
      → ((s : State) → Sound g a s → Keeps (k s))
      → Keeps (and_then x k)
  unfolding Keeps
  and_then-Keeps (ended ok s) k h h' = h' s h
  and_then-Keeps (ended failed s) k h h' = h
  and_then-Keeps undefined k h h' = tt
  and_then-Keeps spent k h h' = tt

  pub optional-Keeps {ℓ} :
      {A : Type ℓ} (o : Option A) (x : Loaded) (k : A → Loaded)
      → Keeps x
      → ((y : A) → Keeps (k y))
      → Keeps (elim o [ none ↦ x | some y ↦ k y ])
  optional-Keeps none x k h h' = h
  optional-Keeps (some y) x k h h' = h' y

  pub allocated-Keeps :
      (s : State) (k : State → Loaded)
      → Sound g a s
      → ((t : State) → Sound g a t → Keeps (k t))
      → Keeps (allocated s k)
  allocated-Keeps s k h h' =
      if-Keeps (alloc s).0 _ _ (h' (alloc s).1 (Sound-alloc s h)) (ended-Keeps failed s h)

  pub of_run-Keeps : (r : Run (Rc × State)) → KeepsRun r → Keeps (of_run r)
  unfolding Keeps KeepsRun
  of_run-Keeps (done (rc, s)) h = h
  of_run-Keeps fault h = tt

  set_flag :
      (s : State) (b : Bool)
      → Sound g a s
      → Sound g a (record s { num_or_bools = set s.num_or_bools 0 (pos (if b then 1 else 0)) })
  set_flag s true h = record {
    flag = elim h.flag [ inl e ↦ inr (rw e refl) | inr e ↦ inr (rw e refl) ];
    plugins = h.plugins;
    strings = h.strings;
    arrs = h.arrs;
  }
  set_flag s false h = record {
    flag = elim h.flag [ inl e ↦ inl (rw e refl) | inr e ↦ inl (rw e refl) ];
    plugins = h.plugins;
    strings = h.strings;
    arrs = h.arrs;
  }

  pub if-Sound :
      (c : Bool) (x y : Rc × State)
      → Sound g a x.1
      → Sound g a y.1
      → Sound g a (if c then x else y).1
  if-Sound true x y h h' = h
  if-Sound false x y h h' = h'

  pub set_value-Sound :
      (strtol : Bytes → Option ℕ) (text : Bytes) (t : Token) (toks : List Token) (cur : ℕ)
      (s : State)
      → Sound g a s
      → Sound g a (set_value strtol thread_safe text t toks cur s).1
  unfolding set_value
  set_value-Sound strtol text t toks cur s h =
      let first = char_at text t.start in
      if-Sound (not (is_primitive t.type)) (failed, s) _ h
        (if-Sound (first == b't') (ok, set_num s 0 (pos 1)) _ (set_flag s true h)
          (if-Sound (first == b'f') (ok, set_num s 0 (pos 0)) (failed, s) (set_flag s false h) h))

  set_one : {A : Type 0} (l : List A) (x : A) → length l ≡ 1 → set l 0 x ≡ x ∷ []
  set_one [] x e = absurd (omega (arith, e))
  set_one (y ∷ []) x e = refl
  set_one (y ∷ z ∷ l) x e = absurd (omega (arith, e))

  pub set_defaults-Sound :
      (s : State)
      → s.g_strings ≡ g
      → s.str_arrs ≡ a
      → length s.num_or_bools ≡ 1
      → Sound g a (set_defaults confs s).1
  unfolding set_defaults default_all set_default pl_reset
  set_defaults-Sound s e e' l = record {
    flag = inl (set_one s.num_or_bools (pos 0) l);
    plugins = tt;
    strings = e;
    arrs = e';
  }
