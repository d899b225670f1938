-- ===== src/Decimal/Sign.antt =====
-- Signs of results: the comparisons with zero decide the sign, and arithmetic keeps it.
use native.Mathlib.Nat.{mul-pos}
use pentagon5_foundation.Prelude.{◌<◌, ◌≡◌, false, arith, ◌∙◌}
use pentagon5_foundation.Prelude.Int.{ℤ, pos, min_ℤ, gap}
use pentagon5_foundation.Decimal.Digits.{pow-pos}
use pentagon5_foundation.Decimal.Fix.{fix_sign, fix-pos}
use pentagon5_foundation.Decimal.{
  Decimal, dec, fix, scaled, from_parts, exact_add, negate, add, sub, mul, le, lt, eq,
}

abbrev pub IsPositive : Decimal → Type 0
IsPositive d = (d.sign ≡ false) × (0 < d.int)

abbrev pub IsNonneg : Decimal → Type 0
IsNonneg d = d.sign ≡ false

scaled-pos : (d : Decimal) (e : ℤ) → 0 < d.int → 0 < scaled d e
unfolding scaled
scaled-pos d e h = mul-pos h (pow-pos (gap d.exp e))

scaled-zero : (e e' : ℤ) → scaled (record { sign = false; int = 0; exp = e }) e' ≡ 0
unfolding scaled
scaled-zero e e' = omega arith

-- What `value <= Decimal("0")` refuses leaves the positive numbers.
pub IsPositive-of_not_le : (d : Decimal) → le d (dec 0) ≡ false → IsPositive d
unfolding le scaled
IsPositive-of_not_le d h = ground arith

pub pos_of_not_eq_zero : (d : Decimal) → eq d (dec 0) ≡ false → 0 < d.int
unfolding eq scaled
pos_of_not_eq_zero d h = ground arith

pub not_le_of_positive : (d : Decimal) → IsPositive d → le d (dec 0) ≡ false
unfolding le
not_le_of_positive d p =
    ground
      (arith, scaled-pos d (min_ℤ d.exp (pos 0)) p.1, scaled-zero (pos 0) (min_ℤ d.exp (pos 0)))

pub fix-IsPositive : (d : Decimal) → IsPositive d → IsPositive (fix d)
fix-IsPositive d p = (rw fix_sign p.0, fix-pos d p.1)

exact_add-IsPositive : (a b : Decimal) → IsNonneg a → IsPositive b → IsPositive (exact_add a b)
unfolding exact_add from_parts
exact_add-IsPositive a b ha hb = ground (arith, scaled-pos b (min_ℤ a.exp b.exp) hb.1)

pub add-IsPositive : (a b : Decimal) → IsNonneg a → IsPositive b → IsPositive (add a b)
unfolding add
add-IsPositive a b ha hb = fix-IsPositive (exact_add a b) (exact_add-IsPositive a b ha hb)

exact_add-IsNonneg : (a b : Decimal) → IsNonneg a → IsNonneg b → IsNonneg (exact_add a b)
unfolding exact_add from_parts
exact_add-IsNonneg a b ha hb = ground arith

pub add-IsNonneg : (a b : Decimal) → IsNonneg a → IsNonneg b → IsNonneg (add a b)
unfolding add
add-IsNonneg a b ha hb = fix_sign (exact_add a b) ∙ exact_add-IsNonneg a b ha hb

pub mul-IsPositive : (a b : Decimal) → IsPositive a → IsPositive b → IsPositive (mul a b)
unfolding mul
mul-IsPositive a b ha hb = fix-IsPositive _ (ground arith, mul-pos ha.1 hb.1)

exact_sub-IsNonneg :
    (a b : Decimal) → IsNonneg a → IsNonneg b → lt a b ≡ false → IsNonneg (exact_add a (negate b))
unfolding exact_add from_parts lt scaled
exact_sub-IsNonneg a b ha hb h = ground arith

-- `a - b` is not negative where `b > a` fails.
pub sub-IsNonneg : (a b : Decimal) → IsNonneg a → IsNonneg b → lt a b ≡ false → IsNonneg (sub a b)
unfolding sub add
sub-IsNonneg a b ha hb h = fix_sign (exact_add a (negate b)) ∙ exact_sub-IsNonneg a b ha hb h

pub sub-IsPositive :
    (a b : Decimal)
    → IsNonneg a
    → IsNonneg b
    → lt a b ≡ false
    → eq (sub a b) (dec 0) ≡ false
    → IsPositive (sub a b)
sub-IsPositive a b ha hb h ne = (sub-IsNonneg a b ha hb h, pos_of_not_eq_zero (sub a b) ne)
