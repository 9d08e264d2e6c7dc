-- ===== src/Conf/Env.antt =====
-- What `conf_load_recurse` of src/conf.c calls: the file system, jsmn and its JSON path, as parameters, and
-- how a run of it ends.
use fast_cgi_rest_api.Common.{
  ℕ, Bool, false, Option, none, List, [], ◌∷◌, ◌++◌, Rc, ok, failed, Run, done, fault, ◌==◌,
  if◌then◌else◌,
}
use fast_cgi_rest_api.Common.Int.{pos}
use fast_cgi_rest_api.Common.Sys.{Bytes}
use fast_cgi_rest_api.Conf.Values.{Token, Conf, boolean, State, alloc}

-- What `jsmn_parse` returns: JSMN_ERROR_NOMEM, another error or no token, or the tokens.
pub data Parsed : Type 0 where
  nomem invalid : Parsed
  tokens : List Token → Parsed

-- The file system and the libraries. `read` is `fopen` with `bread`, and `fclose` and `closedir` are what
-- these return for a path. `parse` is a run of jsmn with room for so many tokens, the same whether a
-- shorter run comes before it. `realloc_moves` tells whether `realloc` gives another block for that text.
-- `members` is `jjp_jsonpath` at "$.*": the indices of the values of the
-- outermost object. `strtol` is that of `set_value`.
pub record Env : Type 0 where
  pub read : Bytes → Option Bytes
  pub fclose : Bytes → Rc
  pub opendir : Bytes → Option (List Bytes)
  pub closedir : Bytes → Rc
  pub parse : Bytes → ℕ → Parsed
  pub realloc_moves : Bytes → Bool
  pub members : Bytes → List Token → Option (List ℕ)
  pub strtol : Bytes → Option ℕ

-- The table `confs`; the name is "thread safe".
abbrev pub thread_safe : Conf
thread_safe = record {
  name = 116 ∷ 104 ∷ 114 ∷ 101 ∷ 97 ∷ 100 ∷ 32 ∷ 115 ∷ 97 ∷ 102 ∷ 101 ∷ [];
  type = boolean;
  id = 0;
  str_default = none;
  val = pos 0;
}

abbrev pub confs : List Conf
confs = thread_safe ∷ []

-- "include", "include directory" and "enabled plugins"
abbrev pub include : Bytes
include = 105 ∷ 110 ∷ 99 ∷ 108 ∷ 117 ∷ 100 ∷ 101 ∷ []

abbrev pub include_directory : Bytes
include_directory =
    105 ∷ 110 ∷ 99 ∷ 108 ∷ 117 ∷ 100 ∷ 101 ∷ 32 ∷ 100 ∷ 105 ∷ 114 ∷ 101 ∷ 99 ∷ 116 ∷ 111 ∷ 114 ∷ 121
    ∷ []

abbrev pub enabled_plugins : Bytes
enabled_plugins =
    101 ∷ 110 ∷ 97 ∷ 98 ∷ 108 ∷ 101 ∷ 100 ∷ 32 ∷ 112 ∷ 108 ∷ 117 ∷ 103 ∷ 105 ∷ 110 ∷ 115 ∷ []

-- How a run ends: `spent` if the fuel is.
pub data Loaded : Type 0 where
  ended : Rc → State → Loaded
  undefined spent : Loaded

-- A step that goes on if it returns 0, and a run whose undefined behaviour is that of the whole.
abbrev pub and_then : Loaded → (State → Loaded) → Loaded
and_then (ended ok s) k = k s
and_then (ended failed s) k = ended failed s
and_then undefined k = undefined
and_then spent k = spent

abbrev pub of_run : Run (Rc × State) → Loaded
of_run (done (rc, s)) = ended rc s
of_run fault = undefined

abbrev pub allocated : State → (State → Loaded) → Loaded
allocated s k = let (made, s') = alloc s in if made then k s' else ended failed s

-- `dent->d_name[0] != '.'`
abbrev pub is_hidden : Bytes → Bool
is_hidden [] = false
is_hidden (c ∷ name) = c == b'.'

-- `bformat( "%s/%s", … )`
abbrev pub path : Bytes → Bytes → Bytes
path dirname name = dirname ++ b'/' ∷ name
