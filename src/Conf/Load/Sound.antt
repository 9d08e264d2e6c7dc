-- ===== src/Conf/Load/Sound.antt =====
-- What `fra_p_conf_load` of src/conf.c leaves in the static variables and in the list of plugins.
use fast_cgi_rest_api.Common.{
  ℕ, zero, suc, ◌≡◌, refl, List, [], ◌∷◌, inl, inr, arith, Rc, ok, failed, fault, Returns, ◌⊎◌,
  subst, length,
}
use fast_cgi_rest_api.Common.Sys.{Bytes, Strings}
use fast_cgi_rest_api.Conf.Values.{Token, is_string, slice, State, alloc, set_defaults, set_value}
use fast_cgi_rest_api.Conf.Env.{
  Env, confs, thread_safe, include, include_directory, enabled_plugins, Loaded, ended, undefined,
  is_hidden, path,
}
use fast_cgi_rest_api.Conf.Plugins.{set_plugins}
use fast_cgi_rest_api.Conf.Load.{
  at_index, key_of, is_key, set_named, parse_text, load_file, load_entries, load_directory,
  load_member, load_index, load_members, load_text, load_body, conf_load_recurse, conf_load,
}
use fast_cgi_rest_api.Conf.Sound.{
  Sound, Keeps, ended-Keeps, undefined-Keeps, Sound-alloc, if-Keeps, and_then-Keeps, optional-Keeps,
  allocated-Keeps, of_run-Keeps, if-Sound, set_value-Sound, set_defaults-Sound,
}
use fast_cgi_rest_api.Conf.Plugins.Fresh.{set_plugins-Keeps}

module _ (g : List Bytes) (a : List (List Bytes)) where
  module _ ⦃st : Strings⦄ (env : Env) where
    set_named-Sound :
        (key text : Bytes) (t : Token) (toks : List Token) (cur : ℕ) (s : State)
        → Sound g a s
        → Sound g a (set_named env confs key text t toks cur s).1
    unfolding set_named
    set_named-Sound key text t toks cur s h =
        if-Sound g a (is_key key thread_safe.name)
          (set_value env.strtol thread_safe text t toks cur s) (ok, s)
          (set_value-Sound g a env.strtol text t toks cur s h) h

    parse_text-Sound :
        (text : Bytes) (s : State)
        → Sound g a s
        → (parse_text env text s ≡ fault) ⊎ Returns (parse_text env text s) λ p. Sound g a p.1
    unfolding parse_text
    parse_text-Sound text s h =
        let h' = Sound-alloc g a s h in
        let h'' = Sound-alloc g a (alloc s).1 h' in ground (arith, h, h', h'')

    module _ (r : Bytes → State → Loaded) where
      -- The program's own calls.
      IsKept : Type 0
      IsKept = (f : Bytes) (s : State) → Sound g a s → Keeps g a (r f s)

      load_file-Keeps :
          IsKept → (f : Bytes) (s : State) → Sound g a s → Keeps g a (load_file env r f s)
      unfolding load_file IsKept
      load_file-Keeps h f s sound = allocated-Keeps g a s (r f) sound (h f)

      load_entries-Keeps :
          IsKept
          → (dirname : Bytes) (names : List Bytes) (s : State) → Sound g a s
          → Keeps g a (load_entries env r dirname names s)
      unfolding load_entries
      load_entries-Keeps h dirname [] s sound = ended-Keeps g a ok s sound
      load_entries-Keeps h dirname (name ∷ names) s sound =
          if-Keeps g a (is_hidden name) _ _ (load_entries-Keeps h dirname names s sound) (
            and_then-Keeps g a _ _ (load_file-Keeps h (path dirname name) s sound)
              (load_entries-Keeps h dirname names))

      load_directory-Keeps :
          IsKept
          → (dirname : Bytes) (s : State) → Sound g a s
          → Keeps g a (load_directory env r dirname s)
      unfolding load_directory
      load_directory-Keeps h dirname s sound = allocated-Keeps g a s _ sound λ t sound'.
          optional-Keeps g a (env.opendir dirname) (ended failed t) _
            (ended-Keeps g a failed t sound')
            λ names.
              and_then-Keeps g a _ _ (load_entries-Keeps h dirname names t sound')
                (ended-Keeps g a (env.closedir dirname))

      load_member-Keeps :
          IsKept
          → (text key : Bytes) (t : Token) (toks : List Token) (cur : ℕ) (s : State) → Sound g a s
          → Keeps g a (load_member env r text key t toks cur s)
      unfolding load_member
      load_member-Keeps h text key t toks cur s sound =
          let fails = ended-Keeps g a failed s sound in
          if-Keeps g a (is_key key include) _ _
            (if-Keeps g a (is_string t.type) _ _ (load_file-Keeps h (slice text t) s sound) fails)
            (if-Keeps g a (is_key key include_directory) _ _
              (if-Keeps g a (is_string t.type) _ _ (load_directory-Keeps h (slice text t) s sound)
                fails)
              (if-Keeps g a (is_key key enabled_plugins) _ _
                (of_run-Keeps g a (set_plugins text t toks cur s)
                  (set_plugins-Keeps g a text t toks cur s sound))
                (ended-Keeps g a _ _ (set_named-Sound key text t toks cur s sound))))

      load_members-Keeps :
          IsKept
          → (text : Bytes) (toks : List Token) (is : List ℕ) (s : State) → Sound g a s
          → Keeps g a (load_members env r text toks is s)
      unfolding load_members load_index
      load_members-Keeps h text toks [] s sound = ended-Keeps g a ok s sound
      load_members-Keeps h text toks (i ∷ is) s sound =
          and_then-Keeps g a _ _
            (optional-Keeps g a (at_index toks i) undefined _ (undefined-Keeps g a) λ t.
              optional-Keeps g a (key_of text toks t.0) undefined _ (undefined-Keeps g a)
                λ key. load_member-Keeps h text key t.0 t.1 i s sound)
            (load_members-Keeps h text toks is)

      load_body-Keeps :
          IsKept
          → (filename : Bytes) (s : State) → Sound g a s
          → Keeps g a (load_body env r filename s)
      unfolding load_body load_text
      load_body-Keeps h filename s sound =
          optional-Keeps g a (env.read filename) (ended failed s) _ (ended-Keeps g a failed s sound)
            λ text. elim (parse_text-Sound text s sound) [
              | inl f ↦ rw (load_text, f) (undefined-Keeps g a)
              | inr ((o, t), f, sound') ↦
                  rw (load_text, f)
                    (optional-Keeps g a o (ended failed t) _ (ended-Keeps g a failed t sound') λ l.
                      optional-Keeps g a (env.members text l) (ended failed t) _
                        (ended-Keeps g a failed t sound')
                        λ is.
                          and_then-Keeps g a _ _ (load_members-Keeps h text l is t sound')
                            (ended-Keeps g a (env.fclose filename)))
            ]

    conf_load_recurse-Keeps :
        (fuel : ℕ) (filename : Bytes) (s : State)
        → Sound g a s
        → Keeps g a (conf_load_recurse env fuel filename s)
    unfolding conf_load_recurse Keeps IsKept
    conf_load_recurse-Keeps zero filename s h = tt
    conf_load_recurse-Keeps (suc fuel) filename s h =
        load_body-Keeps (conf_load_recurse env fuel) (conf_load_recurse-Keeps fuel) filename s h

  Keeps-ended : (x : Loaded) (rc : Rc) (t : State) → Keeps g a x → x ≡ ended rc t → Sound g a t
  unfolding Keeps
  Keeps-ended x rc t h e = subst (Keeps g a) e h

-- However `fra_p_conf_load` ends with a code, for any files: the one Boolean variable is 0 or 1, the
-- strings and the string arrays are as before, and no plugin in the list has a handle, as `fra_p_pl_load`
-- needs it. Before the call there is one Boolean variable; nothing is asked of the plugins.
pub conf_load-Sound :
    ⦃st : Strings⦄
    → (env : Env) (fuel : ℕ) (filename : Bytes) (s t : State) (rc : Rc) → length s.num_or_bools ≡ 1
    → conf_load env fuel filename s ≡ ended rc t
    → Sound s.g_strings s.str_arrs t
unfolding conf_load set_defaults
conf_load-Sound env fuel filename s t rc one e =
    let sound = set_defaults-Sound s.g_strings s.str_arrs s refl refl one in
    Keeps-ended s.g_strings s.str_arrs _ rc t
      (conf_load_recurse-Keeps s.g_strings s.str_arrs env fuel filename (set_defaults confs s).1
        sound)
      e
