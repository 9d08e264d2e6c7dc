-- ===== src/Conf/Load/Cyclic.antt =====
-- `conf_load_recurse` at files that include each other in a cycle.
use fast_cgi_rest_api.Common.{
  ℕ, zero, suc, ◌*◌, ◌-◌, ◌≤◌, ◌≡◌, refl, true, some, List, ◌∷◌, arith, ok, done, ap,
}
use fast_cgi_rest_api.Common.Sys.{Bytes, Strings}
use fast_cgi_rest_api.Conf.Values.{Token, is_string, slice, State, alloc, set_defaults}
use fast_cgi_rest_api.Conf.Env.{Env, tokens, confs, include, Loaded, spent}
use fast_cgi_rest_api.Conf.Load.{
  at_index, key_of, is_key, parse_text, load_file, load_member, load_index, load_members, load_text,
  load_body, conf_load_recurse, conf_load,
}

-- The first member of the file `f` includes the file `g`: `f` can be read, its text is valid JSON of at
-- most 200 tokens, the key of its first member is "include", and the value is the string `g`.
pub record Includes ⦃st : Strings⦄ (env : Env) (f g : Bytes) : Type 0 where
  pub text : Bytes
  pub read : env.read f ≡ some text
  pub token : Token
  pub toks : List Token
  pub parsed : env.parse text 200 ≡ tokens (token ∷ toks)
  pub first : ℕ
  pub others : List ℕ
  pub members : env.members text (token ∷ toks) ≡ some (first ∷ others)
  pub value : Token
  pub behind : List Token
  pub at : at_index (token ∷ toks) first ≡ some (value, behind)
  pub key : Bytes
  pub key_at : key_of text (token ∷ toks) value ≡ some key
  pub is_include : is_key key include ≡ true
  pub is_name : is_string value.type ≡ true
  pub named : slice text value ≡ g

abbrev with_mem : State → ℕ → State
with_mem s n = record s { mem = n }

alloc-made : (s : State) (n : ℕ) → s.mem ≡ suc n → (alloc s).0 ≡ true
unfolding alloc
alloc-made s n e = rw (alloc, e) refl

alloc-after : (s : State) (n : ℕ) → s.mem ≡ suc n → (alloc s).1 ≡ with_mem s n
unfolding alloc
alloc-after s n e = rw (alloc, e) refl

module _ ⦃st : Strings⦄ (env : Env) (r : Bytes → State → Loaded) where
  load_member-spent :
      (f g : Bytes) (i : Includes env f g) (s : State) (n : ℕ)
      → s.mem ≡ suc n
      → r g (with_mem s n) ≡ spent
      → load_member env r i.text i.key i.value i.behind i.first s ≡ spent
  unfolding load_member load_file
  load_member-spent f g i s n h e =
      rw
        (
          load_member,
          i.is_include,
          i.is_name,
          load_file,
          i.named,
          alloc-made s n h,
          alloc-after s n h,
        )
        e

  load_members-spent :
      (f g : Bytes) (i : Includes env f g) (s : State) (n : ℕ)
      → s.mem ≡ suc n
      → r g (with_mem s n) ≡ spent
      → load_members env r i.text (i.token ∷ i.toks) (i.first ∷ i.others) s ≡ spent
  unfolding load_members load_index
  load_members-spent f g i s n h e =
      rw (load_members, load_index, i.at, i.key_at, load_member-spent f g i s n h e) refl

  parse_text-some :
      (f g : Bytes) (i : Includes env f g) (s : State) (n : ℕ)
      → s.mem ≡ suc n
      → parse_text env i.text s ≡ done (some (i.token ∷ i.toks), with_mem s n)
  unfolding parse_text
  parse_text-some f g i s n h =
      rw (parse_text, i.parsed, alloc-made s n h)
        (ap (λ t. done (some (i.token ∷ i.toks), t)) (alloc-after s n h))

  load_body-spent :
      (f g : Bytes) (i : Includes env f g) (s : State) (n : ℕ)
      → s.mem ≡ suc (suc n)
      → r g (with_mem s n) ≡ spent
      → load_body env r f s ≡ spent
  unfolding load_body load_text
  load_body-spent f g i s n h e =
      rw
        (
          load_body,
          i.read,
          load_text,
          parse_text-some f g i s (suc n) h,
          i.members,
          load_members-spent f g i (with_mem s (suc n)) n refl e,
        )
        refl

module _ ⦃st : Strings⦄ (env : Env) (P : Bytes → Type 0)
    (cyclic : (f : Bytes) → P f → (g : Bytes) × P g × Includes env f g) where
  conf_load_recurse-spent :
      (fuel : ℕ) (f : Bytes) (s : State)
      → P f
      → 2 * fuel ≤ s.mem
      → conf_load_recurse env fuel f s ≡ spent
  unfolding conf_load_recurse
  conf_load_recurse-spent zero f s p h = refl
  conf_load_recurse-spent (suc fuel) f s p h =
      let (g, q, i) = cyclic f p in
      let n = s.mem - 2 in
      let two : s.mem ≡ suc (suc n) = omega (arith, h) in
      load_body-spent env (conf_load_recurse env fuel) f g i s n two
        (conf_load_recurse-spent fuel g (with_mem s n) q (omega (arith, h)))

  -- `fra_p_conf_load` of one of some files that can be read and hold valid JSON of at most 200 tokens, the
  -- first member of each of which includes one of them. The cycle is not detected: however much fuel the loading is given, which is how many files may be open at
  -- once, it uses all of it up, if the defaults can be set and there is memory for two allocations for
  -- each of these files.
  pub conf_load-cyclic :
      (fuel : ℕ) (f : Bytes) (s : State)
      → P f
      → (set_defaults confs s).0 ≡ ok
      → 2 * fuel ≤ (set_defaults confs s).1.mem
      → conf_load env fuel f s ≡ spent
  unfolding conf_load
  conf_load-cyclic fuel f s p e h =
      rw (conf_load, e) (conf_load_recurse-spent fuel f (set_defaults confs s).1 p h)
