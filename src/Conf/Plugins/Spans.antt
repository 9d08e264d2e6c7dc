-- ===== src/Conf/Plugins/Spans.antt =====
-- Lists of plugins as jsmn lays them out, for `set_plugins` of src/conf.c.
use fast_cgi_rest_api.Common.{ℕ, suc, ◌≤◌, ◌≡◌, false, some, List, [], ◌∷◌, ◌++◌, map, All}
use fast_cgi_rest_api.Common.Sys.{Bytes}
use fast_cgi_rest_api.Pl.{Plugin, unset}
use fast_cgi_rest_api.Conf.Values.{Token, TokenType, array, string, has_parent, slice, State}

-- Where jsmn finds a plugin: the name, the array behind it, and its elements.
pub record Spans : Type 0 where
  pub name : ℕ × ℕ
  pub arr : ℕ × ℕ
  pub args : List (ℕ × ℕ)

abbrev pub token : TokenType → ℕ → ℕ × ℕ → Token
token type parent (start, stop) = record {
  type = type;
  start = start;
  stop = stop;
  parent = some parent;
}

-- The index behind some tokens that begin at `i`.
abbrev pub skip : ℕ → List (ℕ × ℕ) → ℕ
skip i [] = i
skip i (a ∷ args) = skip (suc i) args

-- The tokens of the plugins of the object at `c`, from the index `i` on.
unfoldable pub tokens : ℕ → ℕ → List Spans → List Token
tokens c i [] = []
tokens c i (p ∷ ps) =
    token string c p.name
    ∷ token array i p.arr
    ∷ (map (token string (suc i)) p.args ++ tokens c (skip (suc (suc i)) p.args) ps)

abbrev pub text_of : Bytes → ℕ × ℕ → Bytes
text_of text (start, stop) = slice text (token string 0 (start, stop))

-- The plugin that is described.
unfoldable pub plugin_of : Bytes → Spans → Plugin
plugin_of text p = record {
  name = text_of text p.name;
  argv = map (text_of text) p.args;
  h = unset;
}

-- The tokens lie within those that they belong to.
abbrev pub IsNested : ℕ → Spans → Type 0
IsNested stop p = (p.name.1 ≤ stop) × All (λ a. a.1 ≤ p.arr.1) p.args

-- The allocations for some arguments and some plugins: two for each, before `m` others.
abbrev pub needed_args : List (ℕ × ℕ) → ℕ → ℕ
needed_args [] m = m
needed_args (a ∷ args) m = suc (suc (needed_args args m))

abbrev pub needed : List Spans → ℕ → ℕ
needed [] m = m
needed (p ∷ ps) m = suc (suc (needed_args p.args (needed ps m)))

-- The object ends before the tokens `rest`: they belong neither to it nor to an array behind its index.
abbrev pub IsEnd : ℕ → List Token → Type 0
IsEnd c [] = Unit {0}
IsEnd c (t ∷ rest) = (i : ℕ) → c ≤ i → has_parent t i ≡ false

-- The state with further plugins, and with `m` allocations left.
abbrev pub with_plugins : State → List Plugin → ℕ → State
with_plugins s ps m = record s { plugins = s.plugins ++ ps; mem = m }
