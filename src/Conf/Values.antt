-- ===== src/Conf/Values.antt =====
-- The values of the configuration, and how a token of a JSON text sets one. The JSON parser is jsmn,
-- which gives the tokens of a text in their order, each with its place in the text.
use fast_cgi_rest_api.Common.{
  ℕ, zero, suc, ◌-◌, ◌%◌, ◌^◌, Bool, true, false, ◌&&◌, not, Option, none, some, List, [], ◌∷◌,
  ◌++◌, Rc, ok, failed, get_elem?, set, take, ltb, leb, ◌==◌, if◌then◌else◌,
}
use fast_cgi_rest_api.Common.Int.{ℤ, pos, negsuc}
use fast_cgi_rest_api.Common.Sys.{Bytes}
use fast_cgi_rest_api.Pl.{Plugin, pl_reset}

-- `jsmntype_t` and `jsmntok_t`; `parent` is `none` for -1.
pub data TokenType : Type 0 where
  undefined object array string primitive : TokenType

pub record Token : Type 0 where
  pub type : TokenType
  pub start : ℕ
  pub stop : ℕ
  pub parent : Option ℕ

abbrev pub is_string : TokenType → Bool
is_string string = true
is_string _ = false

abbrev pub is_array : TokenType → Bool
is_array array = true
is_array _ = false

abbrev pub is_object : TokenType → Bool
is_object object = true
is_object _ = false

abbrev pub is_primitive : TokenType → Bool
is_primitive primitive = true
is_primitive _ = false

-- `t.parent == i`
abbrev pub has_parent : Token → ℕ → Bool
has_parent t i = elim t.parent [ none ↦ false | some p ↦ p == i ]

abbrev pub drop : ℕ → Bytes → Bytes
drop zero l = l
drop (suc n) [] = []
drop (suc n) (x ∷ l) = drop n l

-- The text of a token, and the character at a place; the text ends with a NUL.
abbrev pub slice : Bytes → Token → Bytes
slice s t = take (t.stop - t.start) (drop t.start s)

abbrev pub char_at : Bytes → ℕ → ℕ
char_at s i = elim (get_elem? s i) [ none ↦ 0 | some c ↦ c ]

-- `enum fra_p_conf_type` and `struct conf`
pub data ConfType : Type 0 where
  str str_arr number boolean : ConfType

pub record Conf : Type 0 where
  pub name : Bytes
  pub type : ConfType
  pub id : ℕ
  pub str_default : Option Bytes
  pub val : ℤ

-- The static variables, the plugins of src/pl.c, and how many more allocations succeed: a failing one
-- ends the loading, so the first counts. The assignment of a string counts as one.
pub record State : Type 0 where
  pub num_or_bools : List ℤ
  pub g_strings : List Bytes
  pub str_arrs : List (List Bytes)
  pub plugins : List Plugin
  pub mem : ℕ

-- An allocation: whether it succeeds, and the state after it.
unfoldable pub alloc : State → Bool × State
alloc s = elim s.mem [ zero ↦ (false, s) | suc n ↦ (true, record s { mem = n }) ]

abbrev pub when : Bool × State → (State → Rc × State) → Rc × State
when (true, s) k = k s
when (false, s) k = (failed, s)

-- `strtol` in base 10, `none` if it sets `errno`, for a text that begins with a digit; `val` is an `int`.
abbrev pub as_int : ℕ → ℤ
as_int n = let low = n % 2 ^ 32 in if ltb low (2 ^ 31) then pos low else negsuc (2 ^ 32 - 1 - low)

abbrev pub set_num : State → ℕ → ℤ → State
set_num s id val = record s { num_or_bools = set s.num_or_bools id val }

abbrev pub set_arr : State → ℕ → List Bytes → State
set_arr s id v = record s { str_arrs = set s.str_arrs id v }

-- One turn of the loop of `set_defaults`.
unfoldable pub set_default : Conf → State → Rc × State
unfolding alloc
set_default c s = elim c.type [
  | str ↦
      let text : Bytes = elim c.str_default [ none ↦ [] | some t ↦ t ] in
      when (alloc s) λ s'. (ok, record s' { g_strings = set s'.g_strings c.id text })
  | str_arr ↦ (ok, set_arr s c.id [])
  | number ↦ (ok, set_num s c.id c.val)
  | boolean ↦ (ok, set_num s c.id c.val)
]

unfoldable pub default_all : List Conf → State → Rc × State
unfolding set_default
default_all [] s = (ok, s)
default_all (c ∷ confs) s =
    let (rc, s') = set_default c s in
    let rest = default_all confs s' in elim rc [ ok ↦ rest | failed ↦ (failed, s') ]

unfoldable pub set_defaults : List Conf → State → Rc × State
unfolding default_all
set_defaults confs s = default_all confs (record s { plugins = (pl_reset s.plugins).0 })

-- The loop over the elements of an array of strings, which begins behind the token `cur`.
unfoldable pub arr_loop : Bytes → ℕ → List Token → List Bytes → State → Rc × List Bytes × State
unfolding alloc
arr_loop text cur [] v s = (ok, v, s)
arr_loop text cur (t ∷ toks) v s =
    let (grown, s') = alloc s in
    let (made, s'') = alloc s' in
    let next = arr_loop text cur toks (v ++ slice text t ∷ []) s'' in
    if not (is_string t.type)
    then (failed, v, s)
    else if not (has_parent t cur)
    then (ok, v, s)
    else if grown && made
    then next
    else (failed, v, s'')

-- The branch of `set_value` for an array; `toks` are the tokens behind `cur`.
unfoldable pub set_str_arr : Conf → Bytes → Token → List Token → ℕ → State → Rc × State
unfolding arr_loop
set_str_arr c text t toks cur s =
    let (rc, v, s') = arr_loop text cur toks [] s in
    let filled : Rc × State = elim rc [
      | ok ↦ (ok, set_arr s' c.id v)
      | failed ↦ (failed, set_arr s' c.id [])
    ] in
    if is_array t.type then filled else (failed, set_arr s c.id [])

abbrev pub is_digit : ℕ → Bool
is_digit c = leb b'0' c && leb c b'9'

-- `set_value`, for the token `t` at the index `cur`.
unfoldable pub set_value :
    (strtol : Bytes → Option ℕ) → Conf → Bytes → Token → List Token → ℕ → State → Rc × State
unfolding alloc set_str_arr
set_value strtol c text t toks cur s = elim c.type [
  | str ↦
      let assigned : Rc × State =
        when (alloc s) λ s'. (ok, record s' { g_strings = set s'.g_strings c.id (slice text t) }) in
      if is_string t.type then assigned else (failed, s)
  | boolean ↦
      let first = char_at text t.start in
      if not (is_primitive t.type)
      then (failed, s)
      else if first == b't'
      then (ok, set_num s c.id (pos 1))
      else if first == b'f'
      then (ok, set_num s c.id (pos 0))
      else (failed, s)
  | number ↦
      let parsed : Rc × State = elim (strtol (drop t.start text)) [
        | none ↦ (failed, s)
        | some n ↦ (ok, set_num s c.id (as_int n))
      ] in
      if is_digit (char_at text t.start) then parsed else (failed, s)
  | str_arr ↦ set_str_arr c text t toks cur s
]
