-- ===== src/Examples.antt =====
-- Concrete values of the parameters: byte strings with a small hash, and numbers in thousandths for the
-- floating-point values.
pub mod Tables
pub mod Registers
pub mod Requests
pub mod Handling
pub mod Locking
pub mod Serving
pub mod Demos
pub mod Polling
pub mod Plugins
pub mod Config
pub mod Restarting
use fast_cgi_rest_api.Common.{
  ℕ, suc, ◌+◌, ◌*◌, ◌/◌, ◌≡◌, refl, ap, Bool, true, false, ◌&&◌, some, [], ◌∷◌, arith, ◌⊎◌, inl,
  inr, ◌≢◌, ◌↔◌, Bool-cases, ltb, ◌==◌, Rc, ok,
}
use fast_cgi_rest_api.Common.Int.{ℤ, pos, negsuc, pos_part, neg_part, ◌≤ℤ◌}
use fast_cgi_rest_api.Common.Sys.{Bytes, Strings, Floats}

abbrev pub same : Bytes → Bytes → Bool
same [] [] = true
same [] (b ∷ q) = false
same (a ∷ p) [] = false
same (a ∷ p) (b ∷ q) = (a == b) && same p q

same_refl : (p : Bytes) → same p p ≡ true
same_refl [] = refl
same_refl (a ∷ p) = ground (arith, same_refl p)

pub same-eq : (p q : Bytes) → same p q ≡ true → p ≡ q
same-eq [] [] h = refl
same-eq [] (b ∷ q) h = cc
same-eq (a ∷ p) [] h = cc
same-eq (a ∷ p) (b ∷ q) h = ground (arith, same-eq p q)

pub same_decides :
    (a b : Bytes)
    → ((some (same a b) ≡ some true) × (a ≡ b)) ⊎ ((some (same a b) ≡ some false) × (a ≢ b))
same_decides a b = elim (Bool-cases (same a b)) [
  | inl e ↦ inl (ap some e, same-eq a b e)
  | inr e ↦ inr (ap some e, λ q. ground (arith, e, q, same_refl a))
]

abbrev sum : Bytes → ℕ
sum [] = 0
sum (a ∷ p) = a + sum p

abbrev int_lt : ℤ → ℤ → Bool
int_lt a b = ltb (pos_part a + neg_part b) (pos_part b + neg_part a)

abbrev grown : ℤ → ℤ
grown (pos n) = pos (n * 1618 / 1000)
grown (negsuc n) = negsuc n

instance abbrev pub strings : Strings
strings = record {
  biseq = λ a b. some (same a b);
  biseqcstr = λ a b. some (same a b);
  hash = sum;
  biseq_decides = same_decides;
  biseqcstr_decides = same_decides;
}

pub cotrans : (a b c : ℤ) → int_lt b a ≡ false → int_lt c b ≡ false → int_lt c a ≡ false
cotrans a b c h k = ground arith

pub asymm : (a b : ℤ) → int_lt a b ≡ true → int_lt b a ≡ false
asymm a b h = ground arith

pub mono : (m n : ℤ) → m ≤ℤ n → int_lt n m ≡ false
mono m n h = ground arith

pub grown-le : (n : ℕ) → int_lt (grown (pos n)) (pos n) ≡ false
grown-le n = ground arith

instance abbrev pub floats : Floats
floats = record {
  F = ℤ;
  lt = int_lt;
  of_int = λ n. n;
  grow = grown;
  to_int = pos_part;
  tenth = λ n. n / 10;
  lt_asymm = asymm;
  lt_cotrans = cotrans;
  of_int-mono = mono;
  grow-le = grown-le;
  grow-lt = λ n h k. omega arith;
}
