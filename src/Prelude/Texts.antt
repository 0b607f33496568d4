-- ===== src/Prelude/Texts.antt =====
-- The order of texts.
use Prim.Native.Nat.{ℕ, zero, suc, Ordering, compare as compare_ℕ}
use Prim.Native.Char.{code}
use Prim.Native.String.compare
use Prim.Native.Nat.compare as compare_ℕ
use Prim.Native.String.{String, [], ◌∷◌, compare, then}
use text.Mathlib.Text.{is_lt}
use text.Mathlib.TextEquality.{path_by_compare}
use mathlib.Core.Path.{◌≡◌, refl}
use mathlib.Core.Logic.{◌≢◌}
use mathlib.Core.Bool.{not}

abbrev swap : Ordering → Ordering
swap Ordering.lt = Ordering.gt
swap Ordering.eq = Ordering.eq
swap Ordering.gt = Ordering.lt

compare_ℕ_swap : (m n : ℕ) → compare_ℕ n m ≡ swap (compare_ℕ m n)
compare_ℕ_swap zero zero = refl
compare_ℕ_swap zero (suc n) = rw (compare_ℕ.zero-suc n, compare_ℕ.suc-zero n) refl
compare_ℕ_swap (suc m) zero = rw (compare_ℕ.zero-suc m, compare_ℕ.suc-zero m) refl
compare_ℕ_swap (suc m) (suc n) =
    rw (compare_ℕ.suc-suc m n, compare_ℕ.suc-suc n m) (compare_ℕ_swap m n)

compare-swap : (s t : String) → compare t s ≡ swap (compare s t)
compare-swap [] [] = refl
compare-swap [] (d ∷ t) = rw (compare.nil-cons d t, compare.cons-nil d t) refl
compare-swap (c ∷ s) [] = rw (compare.nil-cons c s, compare.cons-nil c s) refl
compare-swap (c ∷ s) (d ∷ t) =
    rw
      (
        compare.cons-cons c d s t,
        compare.cons-cons d c t s,
        compare_ℕ_swap (code c) (code d),
        compare-swap s t,
      )
      (swap-then (compare_ℕ (code c) (code d)) (compare s t))
  where
    swap-then : (o p : Ordering) → then (swap o) (swap p) ≡ swap (then o p)
    swap-then Ordering.lt p = refl
    swap-then Ordering.eq p = refl
    swap-then Ordering.gt p = refl

-- Of two different texts one comes first.
pub is_lt_swap : (s t : String) → s ≢ t → is_lt (compare t s) ≡ not (is_lt (compare s t))
is_lt_swap s t differ = rw (compare-swap s t) (one (compare s t) refl)
  where
    one : (o : Ordering) → compare s t ≡ o → is_lt (swap o) ≡ not (is_lt o)
    one Ordering.lt e = refl
    one Ordering.eq e = absurd (differ (path_by_compare s t e))
    one Ordering.gt e = refl
