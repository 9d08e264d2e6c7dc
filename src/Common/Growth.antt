-- ===== src/Common/Growth.antt =====
-- The test by which the program would free a pooled object in place of keeping it:
-- `all_count - empty_count > all_count * 1.618f`.
use Prim.Native.Nat.{ℕ}
use mathlib.Core.Path.{◌≡◌}
use mathlib.Core.Bool.{Bool, false}
use native.Mathlib.Omega.{arith}
use fast_cgi_rest_api.Common.Int.{pos, sub_ℕ, ◌≤ℤ◌}
use fast_cgi_rest_api.Common.Sys.{Floats}

module _ ⦃fl : Floats⦄ where
  unfoldable pub over_growth : (all_count empty_count : ℕ) → Bool
  over_growth all_count empty_count =
      fl.lt (fl.grow (fl.of_int (pos all_count))) (fl.of_int (sub_ℕ all_count empty_count))

  sub_ℕ-le : (a b : ℕ) → sub_ℕ a b ≤ℤ pos a
  sub_ℕ-le a b = ground arith

  -- The test fails whatever the counters are: the difference is at most `all_count`, and the product
  -- is at least that.
  pub over_growth_never : (all_count empty_count : ℕ) → over_growth all_count empty_count ≡ false
  unfolding over_growth
  over_growth_never a b =
      fl.lt_cotrans (fl.of_int (sub_ℕ a b)) (fl.of_int (pos a)) (fl.grow (fl.of_int (pos a)))
        (fl.of_int-mono (sub_ℕ a b) (pos a) (sub_ℕ-le a b)) (fl.grow-le a)
