-- ===== src/Common/Sys.antt =====
-- The libraries that the program calls, as parameters: bstrlib and the bundled MurmurHash3, and the
-- floating-point arithmetic of the machine, each with the documented facts that the code relies on.
use Prim.Native.Nat.{ℕ, ◌≤◌, ◌<◌, ◌^◌}
use mathlib.Core.Path.{◌≡◌}
use mathlib.Core.Logic.{◌≢◌, ◌⊎◌}
use mathlib.Core.Bool.{Bool, true, false}
use mathlib.Core.Option.{Option, some}
use mathlib.Core.List.{List}
use fast_cgi_rest_api.Common.Int.{ℤ, pos, ◌≤ℤ◌}

-- A string's bytes, without the final NUL of a C string.
abbrev pub Bytes : Type 0
Bytes = List ℕ

-- `biseq` returns 1, 0 or, on an invalid string, -1 (`none`); the strings of the program are valid.
-- `biseqcstr` compares a string with a C string in the same way.
-- `hash` is MurmurHash3_x86_32 with the seed 55.
pub record Strings : Type 0 where
  pub biseq : Bytes → Bytes → Option Bool
  pub biseqcstr : Bytes → Bytes → Option Bool
  pub hash : Bytes → ℕ
  pub biseq_decides :
      (a b : Bytes) → ((biseq a b ≡ some true) × (a ≡ b)) ⊎ ((biseq a b ≡ some false) × (a ≢ b))
  pub biseqcstr_decides :
      (a b : Bytes)
      → ((biseqcstr a b ≡ some true) × (a ≡ b)) ⊎ ((biseqcstr a b ≡ some false) × (a ≢ b))

-- The values of the C type `float` other than NaN. `grow x` is `x * 1.618f`, `to_int` the cast to
-- `int`, and `tenth n` is `(int)( (float)n * 0.1 )`. The laws are those of rounding to nearest: a
-- conversion is monotone, a product with a factor above 1 does not fall below its other factor, and
-- a capacity that is at least 10 and exact as a float grows.
pub record Floats : Type 1 where
  pub F : Type 0
  pub lt : F → F → Bool
  pub of_int : ℤ → F
  pub grow : F → F
  pub to_int : F → ℕ
  pub tenth : ℕ → ℕ
  pub lt_asymm : (a b : F) → lt a b ≡ true → lt b a ≡ false
  pub lt_cotrans : (a b c : F) → lt b a ≡ false → lt c b ≡ false → lt c a ≡ false
  pub of_int-mono : (m n : ℤ) → m ≤ℤ n → lt (of_int n) (of_int m) ≡ false
  pub grow-le : (n : ℕ) → lt (grow (of_int (pos n))) (of_int (pos n)) ≡ false
  pub grow-lt : (n : ℕ) → 10 ≤ n → n < 2 ^ 24 → n < to_int (grow (of_int (pos n)))
