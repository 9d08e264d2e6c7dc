-- ===== src/Examples/Config.antt =====
-- Configurations at concrete values: a file "a" with the text {"include":"b","thread safe":true} or with
-- another file's name, and an empty file "b".
use fast_cgi_rest_api.Common.{
  ℕ, ◌≤◌, ◌<◌, ◌≡◌, ◌≢◌, refl, sym, subst, false, none, some, List, [], ◌∷◌, ◌++◌, ok, done,
  if◌then◌else◌, arith, All, inl, inr, map, Bool-cases,
}
use fast_cgi_rest_api.Common.Int.{pos}
use fast_cgi_rest_api.Common.Sys.{Bytes}
use fast_cgi_rest_api.Pl.{pl_reset}
use fast_cgi_rest_api.Conf.Values.{Token, object, string, primitive, State, set_defaults, set_value}
use fast_cgi_rest_api.Conf.Env.{tokens, confs, Env, ended, spent, include, thread_safe}
use fast_cgi_rest_api.Conf.Plugins.{set_plugins}
use fast_cgi_rest_api.Conf.Plugins.Spans
use fast_cgi_rest_api.Conf.Plugins.Spans.{Spans, with_plugins, plugin_of}
use fast_cgi_rest_api.Conf.Plugins.Described.{set_plugins-tokens}
use fast_cgi_rest_api.Conf.Load.{conf_load, set_named, at_index, key_of}
use fast_cgi_rest_api.Conf.Load.Included.{included}
use fast_cgi_rest_api.Conf.Load.Cyclic.{Includes, conf_load-cyclic}
use fast_cgi_rest_api.Conf.Load.Ranked.{conf_load-fuel}
use fast_cgi_rest_api.Conf.Load.Sound.{conf_load-Sound}
use fast_cgi_rest_api.Conf.Sound.{Sound}
use fast_cgi_rest_api.Examples.{strings, same, same-eq}

abbrev a_text : ℕ → Bytes
a_text name =
    123
    ∷ 34
    ∷ (include
        ++ 34
          ∷ 58
          ∷ 34
          ∷ name
          ∷ 34
          ∷ 44
          ∷ 34
          ∷ (thread_safe.name ++ 34 ∷ 58 ∷ 116 ∷ 114 ∷ 117 ∷ 101 ∷ 125 ∷ []))

abbrev b_text : Bytes
b_text = 123 ∷ 125 ∷ []

abbrev a_tokens : List Token
a_tokens =
    record { type = object; start = 0; stop = 34; parent = none }
    ∷ record { type = string; start = 2; stop = 9; parent = some 0 }
    ∷ record { type = string; start = 12; stop = 13; parent = some 1 }
    ∷ record { type = string; start = 16; stop = 27; parent = some 0 }
    ∷ record { type = primitive; start = 29; stop = 33; parent = some 3 }
    ∷ []

abbrev b_tokens : List Token
b_tokens = record { type = object; start = 0; stop = 2; parent = none } ∷ []

-- The file "a" includes the file of the given name.
abbrev env : ℕ → Env
env name = record {
  read = λ f.
      if same f (97 ∷ [])
      then some (a_text name)
      else if same f (98 ∷ [])
      then some b_text
      else none;
  fclose = λ f. ok;
  opendir = λ f. none;
  closedir = λ f. ok;
  parse = λ text room. if same text b_text then tokens b_tokens else tokens a_tokens;
  realloc_moves = λ text. false;
  members = λ text toks. some (if same text b_text then [] else 2 ∷ 4 ∷ []);
  strtol = λ text. none;
}

abbrev blank : State
blank = record { num_or_bools = pos 0 ∷ []; g_strings = []; str_arrs = []; plugins = []; mem = 9 }

loads :
    conf_load (env 98) 2 (97 ∷ []) blank
    ≡ ended ok (record blank { num_or_bools = pos 1 ∷ []; mem = 6 })
unfolding conf_load set_defaults set_named set_value pl_reset
loads = refl

abbrev rank : Bytes → ℕ
rank f = if same f (97 ∷ []) then 1 else 0

rank-falls : (f : Bytes) → All (λ g. rank g < rank f) (included (env 98) f)
unfolding included at_index key_of
rank-falls f = elim (Bool-cases (same f (97 ∷ []))) [
  | inl e ↦
      subst (λ g. All (λ h. rank h < rank g) (included (env 98) g)) (sym (same-eq f _ e))
        (omega arith, tt)
  | inr e ↦ elim (Bool-cases (same f (98 ∷ []))) [
    | inl e' ↦
        subst (λ g. All (λ h. rank h < rank g) (included (env 98) g)) (sym (same-eq f _ e')) tt
    | inr e' ↦ rw (included, e, e') tt
  ]
]

conf_load-fuel_example :
    (conf_load (env 98) 2 (97 ∷ []) blank ≢ spent)
    × (conf_load (env 98) 2 (97 ∷ []) blank ≡ conf_load (env 98) 9 (97 ∷ []) blank)
conf_load-fuel_example =
    conf_load-fuel (env 98) rank rank-falls 2 9 (97 ∷ []) blank (omega arith) (omega arith)

abbrev rest_of : List Token → List Token
rest_of [] = []
rest_of (t ∷ toks) = toks

-- The file "a" that includes itself.
IsA : Bytes → Type 0
IsA f = f ≡ 97 ∷ []

itself-Includes : Includes (env 97) (97 ∷ []) (97 ∷ [])
unfolding at_index key_of
itself-Includes = record {
  text = a_text 97;
  read = refl;
  token = record { type = object; start = 0; stop = 34; parent = none };
  toks = rest_of a_tokens;
  parsed = refl;
  first = 2;
  others = 4 ∷ [];
  members = refl;
  value = record { type = string; start = 12; stop = 13; parent = some 1 };
  behind = rest_of (rest_of (rest_of a_tokens));
  at = refl;
  key = include;
  key_at = refl;
  is_include = refl;
  is_name = refl;
  named = refl;
}

IsA-Includes : (f : Bytes) → IsA f → (g : Bytes) × IsA g × Includes (env 97) f g
unfolding IsA
IsA-Includes f e =
    (97 ∷ [], refl, subst (λ h. Includes (env 97) h (97 ∷ [])) (sym e) itself-Includes)

itself-IsA : IsA (97 ∷ [])
unfolding IsA
itself-IsA = refl

blank_defaults : ((set_defaults confs blank).0 ≡ ok) × (8 ≤ (set_defaults confs blank).1.mem)
unfolding set_defaults pl_reset
blank_defaults = (refl, omega arith)

conf_load-cyclic_example : conf_load (env 97) 4 (97 ∷ []) blank ≡ spent
conf_load-cyclic_example =
    conf_load-cyclic (env 97) IsA IsA-Includes 4 (97 ∷ []) blank itself-IsA blank_defaults.0
      blank_defaults.1

conf_load-Sound_example : Sound [] [] (record blank { num_or_bools = pos 1 ∷ []; mem = 6 })
conf_load-Sound_example = conf_load-Sound (env 98) 2 (97 ∷ []) blank _ ok refl loads

-- {"p":["x"]}
abbrev p_text : Bytes
p_text = 123 ∷ 34 ∷ 112 ∷ 34 ∷ 58 ∷ 91 ∷ 34 ∷ 120 ∷ 34 ∷ 93 ∷ 125 ∷ []

abbrev p_spans : List Spans
p_spans = record { name = (2, 3); arr = (5, 10); args = (7, 8) ∷ [] } ∷ []

abbrev p_object : Token
p_object = record { type = object; start = 0; stop = 11; parent = none }

abbrev four_left : State
four_left = record blank { mem = 4 }

set_plugins-tokens_example :
    set_plugins p_text p_object (Spans.tokens 0 1 p_spans ++ []) 0 four_left
    ≡ done (ok, with_plugins four_left (map (plugin_of p_text) p_spans) 0)
set_plugins-tokens_example =
    set_plugins-tokens p_text p_object 0 p_spans [] 0 four_left refl
      ((omega arith, (omega arith, tt)), tt) tt refl
