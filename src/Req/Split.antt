-- ===== src/Req/Split.antt =====
-- What `set_url` and `set_param` make of a parameter: the url is cut at its first question mark.
use fast_cgi_rest_api.Common.{
  ℕ, ◌+◌, ◌-◌, ◌<◌, ◌≤◌, ◌≡◌, refl, sym, ap, ◌∙◌, append-nil, List-cases, false, Option, none, some,
  [], ◌∷◌, ◌++◌, arith, inl, inr, Bool-cases, length, take, take-all, min, ltb, lt→ltb, tests, ◌==◌,
  if◌then◌else◌,
}
use mathlib.Core.Option
use fast_cgi_rest_api.Common.Sys.{Bytes}
use fast_cgi_rest_api.Req.Params.{
  text, max_url_length, set_param, Scan, scan, Urls, base_len, scan_start, set_url,
}

-- The part of a url before its first question mark, and the part from there on.
unfoldable pub before_mark : Bytes → Bytes
before_mark [] = []
before_mark (c ∷ rest) = let more = c ∷ before_mark rest in if c == b'?' then [] else more

unfoldable pub from_mark : Bytes → Bytes
from_mark [] = []
from_mark (c ∷ rest) = let more = from_mark rest in if c == b'?' then c ∷ rest else more

pub before_mark-append-from_mark : (u : Bytes) → before_mark u ++ from_mark u ≡ u
unfolding before_mark from_mark
before_mark-append-from_mark [] = refl
before_mark-append-from_mark (c ∷ rest) = ground (arith, before_mark-append-from_mark rest)

-- The loop once a mark was found: only the counter moves.
scan_found :
    (rest : Bytes) (i n : ℕ) (q : Bytes)
    → i + length rest ≤ max_url_length
    → scan rest (record { i = i; base = some n; query = q })
      ≡ some (record { i = i + length rest; base = some n; query = q })
unfolding scan
scan_found [] i n q h = ground arith
scan_found (c ∷ rest) i n q h = ground (arith, scan_found rest (i + 1) n q (omega arith))

-- What the loop ends in when no mark was seen before it.
scan_end : Bytes → ℕ → Scan
scan_end rest i = elim (from_mark rest) [
  | [] ↦ record { i = i + length rest; base = none; query = [] }
  | c ∷ q ↦ record {
    i = i + length rest;
    base = some (i + length (before_mark rest));
    query = c ∷ q;
  }
]

scan-scan_end :
    (rest : Bytes) (i : ℕ)
    → i + length rest ≤ max_url_length
    → scan rest (record { i = i; base = none; query = [] }) ≡ some (scan_end rest i)
unfolding scan scan_end from_mark before_mark
scan-scan_end [] i h = ground arith
scan-scan_end (c ∷ rest) i h = elim (Bool-cases (c == b'?')) [
  | inl mark ↦
      ground (arith, scan_found rest (i + 1) i (c ∷ rest) (omega arith), lt→ltb i max_url_length)
  | inr other ↦ ground (arith, scan-scan_end rest (i + 1) (omega arith), lt→ltb i max_url_length)
]

scan-none :
    (rest : Bytes) (s : Scan)
    → max_url_length < s.i + length rest
    → s.i ≤ max_url_length
    → scan rest s ≡ none
unfolding scan
scan-none [] s h k = absurd (omega arith)
scan-none (c ∷ rest) s h k = elim (Bool-cases (ltb s.i max_url_length)) [
  | inr full ↦ rw full
  | inl room ↦ rw room (scan-none rest _ (omega arith) (omega tests))
]

-- What the fields of a request stand for after `set_url`.
pub record Splits (param : Bytes) (u : Urls) : Type 0 where
  pub url : text u.url ≡ param
  pub base : text u.base_url ≡ before_mark param
  pub query : text u.query_url ≡ from_mark param

take-before_mark : (u : Bytes) → take (length (before_mark u)) u ≡ before_mark u
unfolding before_mark
take-before_mark [] = refl
take-before_mark (c ∷ rest) = ground (arith, take-before_mark rest)

length-before_mark : (u : Bytes) → length (before_mark u) + length (from_mark u) ≡ length u
unfolding before_mark from_mark
length-before_mark [] = omega arith
length-before_mark (c ∷ rest) = ground (arith, length-before_mark rest)

-- The strings that `set_url` makes at the end of its loop.
abbrev urls_of : Bytes → Scan → Urls
urls_of param s = record {
  url = record { text_from = param; slen = some s.i };
  base_url = record { text_from = param; slen = some (base_len s) };
  query_url = record { text_from = s.query; slen = some (s.i - base_len s) };
}

unmarked-Splits :
    (param : Bytes)
    → from_mark param ≡ []
    → Splits param (urls_of param (record { i = 0 + length param; base = none; query = [] }))
unmarked-Splits param e =
    let whole : before_mark param ≡ param =
      sym (append-nil (before_mark param))
      ∙ ap (◌++◌ (before_mark param)) (sym e)
      ∙ before_mark-append-from_mark param in
    let size : 0 + length param - (0 + length param) ≡ 0 = omega arith in
    record {
      url = take-all (0 + length param) param (omega arith);
      base = take-all (0 + length param) param (omega arith) ∙ sym whole;
      query = rw (size, e);
    }

marked-Splits :
    (param : Bytes) (c : ℕ) (q : Bytes)
    → from_mark param ≡ c ∷ q
    → Splits param (
        urls_of param (record {
          i = 0 + length param;
          base = some (0 + length (before_mark param));
          query = c ∷ q;
        }))
marked-Splits param c q e =
    let start : 0 + length (before_mark param) ≡ length (before_mark param) = omega arith in
    let cut : length (before_mark param) + length (c ∷ q) ≡ length param =
      rw e at (length-before_mark param) in
    record {
      url = take-all (0 + length param) param (omega arith);
      base = rw start (take-before_mark param);
      query = take-all _ (c ∷ q) (omega arith) ∙ sym e;
    }

-- `set_url` takes a url of at most 512 bytes and cuts it at its first question mark: `base_url` is
-- what stands before it, and `query_url` is the rest, the mark included; without a mark it is empty.
pub set_url-Splits :
    (param : Bytes)
    → length param ≤ max_url_length
    → (u : Urls) × (set_url (some param) ≡ some u) × Splits param u
unfolding set_url scan_end
set_url-Splits param h = elim (List-cases (from_mark param)) [
  | inl e ↦
      (_, rw (scan-scan_end param 0 (omega arith), set_url, e, scan_end), unmarked-Splits param e)
  | inr (c, q, e) ↦
      (_, rw (scan-scan_end param 0 (omega arith), set_url, e, scan_end), marked-Splits param c q e)
]

-- `set_url` fails for a url of more than 512 bytes, and for no url.
pub set_url-none :
    (o : Option Bytes)
    → ((param : Bytes) → o ≡ some param → max_url_length < length param)
    → set_url o ≡ none
unfolding set_url
set_url-none none h = refl
set_url-none (some param) h =
    rw (scan-none param scan_start (omega (arith, h param refl)) (omega arith), set_url)

-- `set_param` on every branch: it takes exactly the parameters that are shorter than the limit, whole.
pub set_param-text :
    (o : Option Bytes) (mlen : ℕ)
    → Option.map text (set_param o mlen)
      ≡ elim o [ none ↦ none | some p ↦ if ltb (length p) mlen then some p else none ]
unfolding set_param
set_param-text none mlen = refl
set_param-text (some p) mlen = elim (Bool-cases (ltb (length p) mlen)) [
  | inl short ↦
      let whole : min (length p) mlen ≡ length p = omega tests in
      rw (whole, short) (ap some (take-all (length p) p (omega arith)))
  | inr long ↦ let cut : ltb (min (length p) mlen) mlen ≡ false = omega tests in rw (cut, long)
]
