-- ===== src/Conf/Load/Agree.antt =====
-- Two runs of the body of `conf_load_recurse` whose own calls end in the same way.
use fast_cgi_rest_api.Common.{
  ℕ, ◌≡◌, ◌≢◌, refl, Bool, Bool-cases, true, false, Option, none, some, List, [], ◌∷◌, inl, inr,
  arith, Rc, ok, failed, Run, done, fault, if◌then◌else◌, All, All-append,
}
use fast_cgi_rest_api.Common.Sys.{Bytes, Strings}
use fast_cgi_rest_api.Conf.Values.{Token, is_string, slice, State, alloc}
use fast_cgi_rest_api.Conf.Env.{
  Env, include, include_directory, enabled_plugins, Loaded, ended, undefined, spent, and_then,
  of_run, allocated, is_hidden, path,
}
use fast_cgi_rest_api.Conf.Plugins.{set_plugins}
use fast_cgi_rest_api.Conf.Load.{
  at_index, key_of, is_key, load_file, load_entries, load_directory, load_member, load_index,
  load_members, load_text, load_body,
}
use fast_cgi_rest_api.Conf.Load.Included.{
  tokens_of, entries_of, member_files, index_files, files_of, included, parse_text-cases,
}

-- The same end of two runs, and not for want of fuel.
unfoldable pub Agree : Loaded → Loaded → Type 0
Agree a b = (a ≡ b) × (a ≢ spent)

pub ended-Agree : (rc : Rc) (s : State) → Agree (ended rc s) (ended rc s)
unfolding Agree
ended-Agree rc s = (refl, λ e. ground (arith, e))

undefined-Agree : Agree undefined undefined
unfolding Agree
undefined-Agree = (refl, λ e. ground (arith, e))

and_then-Agree :
    (a b : Loaded) (k l : State → Loaded)
    → Agree a b
    → ((s : State) → Agree (k s) (l s))
    → Agree (and_then a k) (and_then b l)
unfolding Agree
and_then-Agree a b k l (e, ended_a) h = rw (← e) (
    elim a as (λ x. x ≢ spent → Agree (and_then x k) (and_then x l)) [
      | ended ok s ↦ λ _. h s
      | ended failed s ↦ λ _. ended-Agree failed s
      | undefined ↦ λ _. undefined-Agree
      | spent ↦ λ n. absurd (n refl)
    ]
      ended_a)

if-Agree :
    (c : Bool) (a b a' b' : Loaded)
    → Agree a b
    → Agree a' b'
    → Agree (if c then a else a') (if c then b else b')
if-Agree true a b a' b' h h' = h
if-Agree false a b a' b' h h' = h'

of_run-Agree : (r : Run (Rc × State)) → Agree (of_run r) (of_run r)
of_run-Agree (done (rc, s)) = ended-Agree rc s
of_run-Agree fault = undefined-Agree

optional-Agree {ℓ} :
    {A : Type ℓ} (o : Option A) (a : Loaded) (k l : A → Loaded)
    → Agree a a
    → ((x : A) → o ≡ some x → Agree (k x) (l x))
    → Agree (elim o [ none ↦ a | some x ↦ k x ]) (elim o [ none ↦ a | some x ↦ l x ])
optional-Agree none a k l h h' = h
optional-Agree (some x) a k l h h' = h' x refl

allocated-Agree :
    (s : State) (k l : State → Loaded)
    → ((t : State) → Agree (k t) (l t))
    → Agree (allocated s k) (allocated s l)
allocated-Agree s k l h = if-Agree (alloc s).0 _ _ _ _ (h (alloc s).1) (ended-Agree failed s)

module _ ⦃st : Strings⦄ (env : Env) (r r' : Bytes → State → Loaded) where
  -- The two runs agree at a file.
  unfoldable pub AgreeAt : Bytes → Type 0
  AgreeAt f = (s : State) → Agree (r f s) (r' f s)

  load_file-Agree :
      (f : Bytes) (s : State) → AgreeAt f → Agree (load_file env r f s) (load_file env r' f s)
  unfolding load_file AgreeAt
  load_file-Agree f s h = allocated-Agree s (r f) (r' f) h

  load_entries-Agree :
      (dirname : Bytes) (names : List Bytes) (s : State)
      → All AgreeAt (entries_of env dirname names)
      → Agree (load_entries env r dirname names s) (load_entries env r' dirname names s)
  unfolding load_entries entries_of
  load_entries-Agree dirname [] s h = ended-Agree ok s
  load_entries-Agree dirname (name ∷ names) s h = elim (Bool-cases (is_hidden name)) [
    | inl e ↦ rw e (load_entries-Agree dirname names s (rw e at h))
    | inr e ↦
        let (h', hs) = rw e at h in
        rw e (
          and_then-Agree _ _ _ _ (load_file-Agree (path dirname name) s h')
            λ s'. load_entries-Agree dirname names s' hs)
  ]

  load_directory-Agree :
      (dirname : Bytes) (s : State)
      → All AgreeAt
          (elim (env.opendir dirname) [ none ↦ [] | some names ↦ entries_of env dirname names ])
      → Agree (load_directory env r dirname s) (load_directory env r' dirname s)
  unfolding load_directory
  load_directory-Agree dirname s h = allocated-Agree s _ _ λ t.
      optional-Agree (env.opendir dirname) (ended failed t) _ _ (ended-Agree failed t) λ names e.
        and_then-Agree _ _ _ _ (load_entries-Agree dirname names t (rw e at h))
          (ended-Agree (env.closedir dirname))

  load_member-Agree :
      (text key : Bytes) (t : Token) (toks : List Token) (cur : ℕ) (s : State)
      → All AgreeAt (member_files env text key t)
      → Agree (load_member env r text key t toks cur s) (load_member env r' text key t toks cur s)
  unfolding load_member member_files
  load_member-Agree text key t toks cur s h = elim (Bool-cases (is_key key include)) [
    | inl e ↦ rw e (
        if-Agree (is_string t.type) _ _ _ _ (load_file-Agree (slice text t) s (rw e at h).0)
          (ended-Agree failed s))
    | inr e ↦ elim (Bool-cases (is_key key include_directory)) [
      | inl d ↦
          rw (e, d)
            (if-Agree (is_string t.type) _ _ _ _
              (load_directory-Agree (slice text t) s (rw (e, d) at h)) (ended-Agree failed s))
      | inr d ↦
          rw (e, d)
            (if-Agree (is_key key enabled_plugins) _ _ _ _
              (of_run-Agree (set_plugins text t toks cur s)) (ended-Agree _ _))
    ]
  ]

  load_index-Agree :
      (text : Bytes) (toks : List Token) (i : ℕ) (s : State)
      → All AgreeAt (index_files env text toks i)
      → Agree (load_index env r text toks i s) (load_index env r' text toks i s)
  unfolding load_index index_files
  load_index-Agree text toks i s h =
      optional-Agree (at_index toks i) undefined _ _ undefined-Agree λ t e.
        optional-Agree (key_of text toks t.0) undefined _ _ undefined-Agree
          λ key e'. load_member-Agree text key t.0 t.1 i s (rw (index_files, e, e') at h)

  load_members-Agree :
      (text : Bytes) (toks : List Token) (is : List ℕ) (s : State)
      → All AgreeAt (files_of env text toks is)
      → Agree (load_members env r text toks is s) (load_members env r' text toks is s)
  unfolding load_members files_of
  load_members-Agree text toks [] s h = ended-Agree ok s
  load_members-Agree text toks (i ∷ is) s h =
      let (h', hs) = All-append AgreeAt (index_files env text toks i) _ h in
      and_then-Agree _ _ _ _ (load_index-Agree text toks i s h')
        λ s'. load_members-Agree text toks is s' hs

  load_text-Agree :
      (filename text : Bytes) (s : State)
      → env.read filename ≡ some text
      → All AgreeAt (included env filename)
      → Agree (load_text env r filename text s) (load_text env r' filename text s)
  unfolding load_text included
  load_text-Agree filename text s e h = elim (parse_text-cases env text s) [
    | inl f ↦ rw (load_text, f) undefined-Agree
    | inr ((o, t), f, inl n) ↦ rw (load_text, f, n) (ended-Agree failed t)
    | inr ((o, t), f, inr n) ↦
        rw (load_text, f, n)
          (optional-Agree (tokens_of env text) (ended failed t) _ _ (ended-Agree failed t) λ l e'.
            optional-Agree (env.members text l) (ended failed t) _ _ (ended-Agree failed t)
              λ is e''.
                and_then-Agree _ _ _ _
                  (load_members-Agree text l is t (rw (included, e, e', e'') at h))
                  (ended-Agree (env.fclose filename)))
  ]

  pub load_body-Agree :
      (filename : Bytes) (s : State)
      → All AgreeAt (included env filename)
      → Agree (load_body env r filename s) (load_body env r' filename s)
  unfolding load_body
  load_body-Agree filename s h =
      optional-Agree (env.read filename) (ended failed s) _ _ (ended-Agree failed s)
        λ text e. load_text-Agree filename text s e h
