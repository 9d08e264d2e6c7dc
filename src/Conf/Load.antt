-- ===== src/Conf/Load.antt =====
-- `conf_load_recurse` and `fra_p_conf_load` of src/conf.c. A file may include others, so the recursion
-- takes fuel, one unit for each file that is open at once.
pub mod Included
pub mod Agree
pub mod Cyclic
pub mod Ranked
pub mod Sound
use fast_cgi_rest_api.Common.{
  ℕ, zero, suc, Bool, true, false, Option, none, some, List, [], ◌∷◌, ◌++◌, Rc, ok, failed, Run,
  done, fault, get_elem?, length, ◌==◌, if◌then◌else◌,
}
use fast_cgi_rest_api.Common.Int.{ℤ, pos}
use fast_cgi_rest_api.Common.Sys.{Bytes, Strings}
use fast_cgi_rest_api.Conf.Values.{
  Token, is_string, slice, Conf, boolean, State, alloc, set_defaults, set_value,
}
use fast_cgi_rest_api.Conf.Env.{
  Parsed, nomem, invalid, tokens, Env, confs, include, include_directory, enabled_plugins, Loaded,
  ended, undefined, spent, and_then, of_run, allocated, is_hidden, path,
}
use fast_cgi_rest_api.Conf.Plugins.{set_plugins}

-- `t_len > 0`
abbrev pub some_tokens : Parsed → Option (List Token)
some_tokens nomem = none
some_tokens invalid = none
some_tokens (tokens []) = none
some_tokens (tokens (t ∷ toks)) = some (t ∷ toks)

-- The token at an index, and those behind it; an index beyond the tokens is not one of `members`.
unfoldable pub at_index : List Token → ℕ → Option (Token × List Token)
at_index [] i = none
at_index (t ∷ toks) zero = some (t, toks)
at_index (t ∷ toks) (suc i) = at_index toks i

-- `t[ t[ r->tokens[i] ].parent ]`, the key
unfoldable pub key_of : Bytes → List Token → Token → Option Bytes
unfolding at_index
key_of text toks t = elim t.parent [
  | none ↦ none
  | some p ↦ elim (at_index toks p) [ none ↦ none | some k ↦ some (slice text k.0) ]
]

abbrev pub is_key : ⦃st : Strings⦄ → Bytes → Bytes → Bool
is_key ⦃st⦄ key name = elim (st.biseqcstr key name) [ none ↦ false | some eq ↦ eq ]

module _ ⦃st : Strings⦄ (env : Env) where
  -- The search of `confs`: the first one of that name is set.
  unfoldable pub set_named : List Conf → Bytes → Bytes → Token → List Token → ℕ → State → Rc × State
  set_named [] key text t toks cur s = (ok, s)
  set_named (c ∷ cs) key text t toks cur s =
      let next = set_named cs key text t toks cur s in
      if is_key key c.name then set_value env.strtol c text t toks cur s else next

  -- `jsmn_parse` with room for 200 tokens, then for 1200; `t` is still the block that `realloc` was given.
  unfoldable pub parse_text : Bytes → State → Run (Option (List Token) × State)
  parse_text text s =
      let (made, s') = alloc s in
      let (grown, s'') = alloc s' in
      if made
      then elim (env.parse text 200) [
        | nomem ↦
            if grown
            then (if env.realloc_moves text
                then fault
                else done (some_tokens (env.parse text 1200), s''))
            else done (none, s')
        | invalid ↦ done (none, s')
        | tokens l ↦ done (some_tokens (tokens l), s')
      ]
      else done (none, s)

  module _ (recurse : Bytes → State → Loaded) where
    -- The branch for an included file.
    unfoldable pub load_file : Bytes → State → Loaded
    load_file filename s = allocated s (recurse filename)

    -- The loop over the entries of a directory.
    unfoldable pub load_entries : Bytes → List Bytes → State → Loaded
    unfolding load_file
    load_entries dirname [] s = ended ok s
    load_entries dirname (name ∷ names) s =
        let next = load_entries dirname names in
        if is_hidden name then next s else and_then (load_file (path dirname name) s) next

    unfoldable pub load_directory : Bytes → State → Loaded
    unfolding load_entries
    load_directory dirname s = allocated s λ s'. elim (env.opendir dirname) [
      | none ↦ ended failed s'
      | some names ↦ and_then (load_entries dirname names s') (ended (env.closedir dirname))
    ]

    -- A member of the outermost object: the value `t` with the index `cur`, and the tokens behind it.
    unfoldable pub load_member : Bytes → Bytes → Token → List Token → ℕ → State → Loaded
    unfolding load_file load_directory
    load_member text key t toks cur s =
        let included : Loaded =
          if is_string t.type then load_file (slice text t) s else ended failed s in
        let directory : Loaded =
          if is_string t.type then load_directory (slice text t) s else ended failed s in
        let (rc, s') = set_named confs key text t toks cur s in
        if is_key key include
        then included
        else if is_key key include_directory
        then directory
        else if is_key key enabled_plugins
        then of_run (set_plugins text t toks cur s)
        else ended rc s'

    unfoldable pub load_index : Bytes → List Token → ℕ → State → Loaded
    unfolding load_member key_of at_index
    load_index text toks i s = elim (at_index toks i) [
      | none ↦ undefined
      | some t ↦ elim (key_of text toks t.0) [
        | none ↦ undefined
        | some key ↦ load_member text key t.0 t.1 i s
      ]
    ]

    -- The loop over the members.
    unfoldable pub load_members : Bytes → List Token → List ℕ → State → Loaded
    unfolding load_index
    load_members text toks [] s = ended ok s
    load_members text toks (i ∷ is) s =
        and_then (load_index text toks i s) (load_members text toks is)

    -- The members of a text, and `fclose`.
    unfoldable pub load_text : Bytes → Bytes → State → Loaded
    unfolding load_members parse_text
    load_text filename text s = elim (parse_text text s) [
      | fault ↦ undefined
      | done parsed ↦ elim (parsed.0) [
        | none ↦ ended failed parsed.1
        | some l ↦ elim (env.members text l) [
          | none ↦ ended failed parsed.1
          | some is ↦ and_then (load_members text l is parsed.1) (ended (env.fclose filename))
        ]
      ]
    ]

    -- The body of `conf_load_recurse`, with its own calls.
    unfoldable pub load_body : Bytes → State → Loaded
    unfolding load_text
    load_body filename s = elim (env.read filename) [
      | none ↦ ended failed s
      | some text ↦ load_text filename text s
    ]

  unfoldable pub conf_load_recurse : ℕ → Bytes → State → Loaded
  unfolding load_body
  conf_load_recurse zero filename s = spent
  conf_load_recurse (suc fuel) filename s = load_body (conf_load_recurse fuel) filename s

  -- `fra_p_conf_load`
  unfoldable pub conf_load : ℕ → Bytes → State → Loaded
  unfolding conf_load_recurse
  conf_load fuel filename s =
      let (rc, s') = set_defaults confs s in
      elim rc [ ok ↦ conf_load_recurse fuel filename s' | failed ↦ ended failed s' ]

-- `fra_p_conf_num_or_bool`, `fra_p_conf_str` and `fra_p_conf_str_arr`, the last with its length.
unfoldable pub conf_num_or_bool : State → ℕ → Option ℤ
conf_num_or_bool s id = get_elem? s.num_or_bools id

unfoldable pub conf_str : State → ℕ → Option Bytes
conf_str s id = get_elem? s.g_strings id

unfoldable pub conf_str_arr : State → ℕ → Option (List Bytes × ℕ)
conf_str_arr s id = elim (get_elem? s.str_arrs id) [ none ↦ none | some v ↦ some (v, length v) ]
