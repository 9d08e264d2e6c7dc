-- ===== src/Conf/Load/Included.antt =====
-- The files that a configuration file includes, by the members `include` and `include directory` that
-- `conf_load_recurse` of src/conf.c reads.
use fast_cgi_rest_api.Common.{
  ℕ, ◌≡◌, Option, none, some, List, [], ◌∷◌, ◌++◌, arith, fault, if◌then◌else◌, Returns, ◌⊎◌,
}
use fast_cgi_rest_api.Common.Sys.{Bytes, Strings}
use fast_cgi_rest_api.Conf.Values.{Token, slice, State}
use fast_cgi_rest_api.Conf.Env.{
  nomem, invalid, tokens, Env, include, include_directory, is_hidden, path,
}
use fast_cgi_rest_api.Conf.Load.{some_tokens, at_index, key_of, is_key, parse_text}

-- The files that a file includes.
module _ ⦃st : Strings⦄ (env : Env) where
  unfoldable pub tokens_of : Bytes → Option (List Token)
  tokens_of text = elim (env.parse text 200) [
    | nomem ↦ some_tokens (env.parse text 1200)
    | invalid ↦ none
    | tokens l ↦ some_tokens (tokens l)
  ]

  unfoldable pub entries_of : Bytes → List Bytes → List Bytes
  entries_of dirname [] = []
  entries_of dirname (name ∷ names) =
      let rest = entries_of dirname names in
      if is_hidden name then rest else path dirname name ∷ rest

  unfoldable pub member_files : Bytes → Bytes → Token → List Bytes
  unfolding entries_of
  member_files text key t =
      let directory : List Bytes = elim (env.opendir (slice text t)) [
        | none ↦ []
        | some names ↦ entries_of (slice text t) names
      ] in
      if is_key key include
      then slice text t ∷ []
      else if is_key key include_directory
      then directory
      else []

  unfoldable pub index_files : Bytes → List Token → ℕ → List Bytes
  unfolding member_files
  index_files text toks i = elim (at_index toks i) [
    | none ↦ []
    | some t ↦ elim (key_of text toks t.0) [ none ↦ [] | some key ↦ member_files text key t.0 ]
  ]

  unfoldable pub files_of : Bytes → List Token → List ℕ → List Bytes
  unfolding index_files
  files_of text toks [] = []
  files_of text toks (i ∷ is) = index_files text toks i ++ files_of text toks is

  unfoldable pub included : Bytes → List Bytes
  unfolding tokens_of files_of
  included filename = elim (env.read filename) [
    | none ↦ []
    | some text ↦ elim (tokens_of text) [
      | none ↦ []
      | some l ↦ elim (env.members text l) [ none ↦ [] | some is ↦ files_of text l is ]
    ]
  ]

-- `parse_text` finds the tokens, or it fails.
pub parse_text-cases :
    ⦃st : Strings⦄
    → (env : Env) (text : Bytes) (s : State)
    → (parse_text env text s ≡ fault)
      ⊎ Returns (parse_text env text s) λ p. (p.0 ≡ none) ⊎ (p.0 ≡ tokens_of env text)
unfolding parse_text tokens_of
parse_text-cases env text s = ground arith
