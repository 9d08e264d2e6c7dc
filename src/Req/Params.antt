-- ===== src/Req/Params.antt =====
-- `set_param` and `set_url` of src/req.c: they make strings that point into the parameters of a request.
-- A parameter is a C string, its bytes without the final NUL.
use fast_cgi_rest_api.Common.{
  ℕ, ◌+◌, ◌-◌, Bool, true, false, ◌&&◌, Option, none, some, [], ◌∷◌, length, take, min, ltb, ◌==◌,
  if◌then◌else◌,
}
use fast_cgi_rest_api.Common.Sys.{Bytes}

-- `struct tagbstring`: what `data` points to, up to its NUL, and the length; -1 is `none`.
pub record Tag : Type 0 where
  pub text_from : Bytes
  pub slen : Option ℕ

-- The bytes that a tag stands for.
abbrev pub text : Tag → Bytes
text t = elim t.slen [ none ↦ [] | some n ↦ take n t.text_from ]

abbrev pub max_url_length : ℕ
max_url_length = 512

abbrev pub max_verb_length : ℕ
max_verb_length = 50

-- `set_param`, at what `FCGX_GetParam` returns.
unfoldable pub set_param : Option Bytes → ℕ → Option Tag
set_param none mlen = none
set_param (some param) mlen =
    let slen = min (length param) mlen in
    if ltb slen mlen then some (record { text_from = param; slen = some slen }) else none

-- What the loop of `set_url` changes: the counter, the length of the base and the data of the query.
pub record Scan : Type 0 where
  pub i : ℕ
  pub base : Option ℕ
  pub query : Bytes

abbrev pub is_none : Option ℕ → Bool
is_none none = true
is_none (some n) = false

-- The loop; `rest` is the parameter from the position `i` on.
unfoldable pub scan : Bytes → Scan → Option Scan
scan [] s = some s
scan (c ∷ rest) s =
    let mark = c == b'?' && is_none s.base in
    let base : Option ℕ = if mark then some s.i else s.base in
    let query : Bytes = if mark then c ∷ rest else s.query in
    let next = scan rest (record { i = s.i + 1; base = base; query = query }) in
    if ltb s.i max_url_length then next else none

abbrev pub scan_start : Scan
scan_start = record { i = 0; base = none; query = [] }

pub record Urls : Type 0 where
  pub url : Tag
  pub base_url : Tag
  pub query_url : Tag

abbrev pub base_len : Scan → ℕ
base_len s = elim s.base [ none ↦ s.i | some n ↦ n ]

-- `set_url`. Where it fails, the strings of the request are left half set and are not read again.
unfoldable pub set_url : Option Bytes → Option Urls
set_url none = none
set_url (some param) = elim (scan param scan_start) [
  | none ↦ none
  | some s ↦ some (record {
    url = record { text_from = param; slen = some s.i };
    base_url = record { text_from = param; slen = some (base_len s) };
    query_url = record { text_from = s.query; slen = some (s.i - base_len s) };
  })
]
