-- ===== src/Common/Blocks.antt =====
-- Heap blocks of one kind, by their addresses: the ones that `malloc` has returned and `free` has not
-- taken back.
use Prim.Native.Nat.{ℕ, suc, ◌+◌, ◌≤◌}
use mathlib.Core.Path.{◌≡◌, refl}
use mathlib.Core.Bool.{Bool, true, false}
use mathlib.Core.List.{List, [], ◌∷◌}
use native.Mathlib.Omega.{arith}
use fast_cgi_rest_api.Common.Tests.{◌==◌, if◌then◌else◌}
use fast_cgi_rest_api.Common.Lists.{length}

-- How often an address occurs.
unfoldable pub count : ℕ → List ℕ → ℕ
count p [] = 0
count p (q ∷ l) = let rest = count p l in if q == p then suc rest else rest

unfoldable pub is_live : ℕ → List ℕ → Bool
is_live p [] = false
is_live p (q ∷ l) = let rest = is_live p l in if q == p then true else rest

unfoldable pub remove : ℕ → List ℕ → List ℕ
remove p [] = []
remove p (q ∷ l) = let rest = q ∷ remove p l in if q == p then l else rest

pub remove-cons : (p : ℕ) (l : List ℕ) → remove p (p ∷ l) ≡ l
unfolding remove
remove-cons p l = ground arith

pub is_live-count : (p : ℕ) (l : List ℕ) → 1 ≤ count p l → is_live p l ≡ true
unfolding count is_live
is_live-count p [] h = elim h [ ]
is_live-count p (q ∷ l) h = ground (arith, is_live-count p l)

pub count-is_live : (p : ℕ) (l : List ℕ) → is_live p l ≡ false → count p l ≡ 0
unfolding count is_live
count-is_live p [] h = refl
count-is_live p (q ∷ l) h = ground (arith, count-is_live p l)

pub count-remove :
    (p q : ℕ) (l : List ℕ)
    → is_live p l ≡ true
    → count q (remove p l) + (if p == q then 1 else 0) ≡ count q l
unfolding count is_live remove
count-remove p q [] h = ground arith
count-remove p q (r ∷ l) h = ground (arith, count-remove p q l)

pub length-remove : (p : ℕ) (l : List ℕ) → is_live p l ≡ true → length (remove p l) + 1 ≡ length l
unfolding is_live remove
length-remove p [] h = ground arith
length-remove p (r ∷ l) h = ground (arith, length-remove p l)
