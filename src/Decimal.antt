-- ===== src/Decimal.antt =====
-- Python's `decimal.Decimal` as broker/models.py, broker/provider.py and strategy/models.py use it:
-- finite numbers under the default context (28 significant digits, ROUND_HALF_EVEN). NaN and the
-- infinities are left out, and exponents are not cut off at Emin and Emax.
pub mod Digits
pub mod Fix
pub mod Sign
pub mod Division
use Digits.{digits}
use pentagon5_foundation.Prelude.{
  ℕ, zero, suc, ◌+◌, ◌-◌, ◌*◌, ◌/◌, ◌%◌, ◌^◌, Bool, true, false, not, ◌&&◌, ◌||◌, Option, none,
  some, ltb, leb, ◌==◌, if◌then◌else◌,
}
use pentagon5_foundation.Prelude.Int.{ℤ, pos, negsuc, ◌+ℤ◌, ◌-ℤ◌, min_ℤ, gap}

-- (-1)^sign * int * 10^exp
pub record Decimal : Type 0 where
  pub sign : Bool
  pub int : ℕ
  pub exp : ℤ

abbrev pub dec : ℕ → Decimal
dec n = record { sign = false; int = n; exp = pos 0 }

abbrev precision : ℕ
precision = 28

-- Whether ROUND_HALF_EVEN rounds the quotient `q` with remainder `r` of `m` up.
half_even : ℕ → ℕ → ℕ → Bool
half_even q r m = ltb m (2 * r) || (2 * r == m && q % 2 == 1)

round_up : ℕ → ℕ → ℕ → ℕ
unfolding half_even
round_up q r m = if half_even q r m then q + 1 else q

-- A coefficient that rounding has carried to 29 digits loses its last zero.
carried : Bool → ℕ → ℤ → Decimal
carried s q e =
    if q == 10 ^ precision
    then record { sign = s; int = 10 ^ (precision - 1); exp = e +ℤ pos 1 }
    else record { sign = s; int = q; exp = e }

-- `d` without its last `k` digits.
drop_digits : ℕ → Decimal → Decimal
unfolding round_up carried
drop_digits k d =
    let q = d.int / 10 ^ k in
    let r = d.int % 10 ^ k in carried d.sign (round_up q r (10 ^ k)) (d.exp +ℤ pos k)

-- The context's rounding of a result.
unfoldable pub fix : Decimal → Decimal
unfolding drop_digits
fix d = let n = digits d.int in if leb n precision then d else drop_digits (n - precision) d

-- The coefficient of `d` at an exponent that is not above its own.
unfoldable pub scaled : Decimal → ℤ → ℕ
scaled d e = d.int * 10 ^ gap d.exp e

-- The two parts of a signed coefficient: one of them is 0.
abbrev pub plus_part : Bool → ℕ → ℕ
plus_part true n = 0
plus_part false n = n

abbrev pub minus_part : Bool → ℕ → ℕ
minus_part true n = n
minus_part false n = 0

-- A difference of coefficients: zero is positive, unless both terms are negative.
unfoldable pub from_parts : Bool → ℕ → ℕ → ℤ → Decimal
from_parts z p m e =
    if p == m
    then record { sign = z; int = 0; exp = e }
    else if ltb m p
    then record { sign = false; int = p - m; exp = e }
    else record { sign = true; int = m - p; exp = e }

unfoldable pub exact_add : Decimal → Decimal → Decimal
exact_add a b =
    let e = min_ℤ a.exp b.exp in
    let x = scaled a e in
    let y = scaled b e in
    from_parts (a.sign && b.sign) (plus_part a.sign x + plus_part b.sign y)
      (minus_part a.sign x + minus_part b.sign y) e

-- `a + b`
unfoldable pub add : Decimal → Decimal → Decimal
add a b = fix (exact_add a b)

-- `a.copy_negate()`
abbrev pub negate : Decimal → Decimal
negate d = record { sign = not d.sign; int = d.int; exp = d.exp }

-- `a - b`
unfoldable pub sub : Decimal → Decimal → Decimal
sub a b = add a (negate b)

abbrev differ : Bool → Bool → Bool
differ true b = not b
differ false b = b

-- `a * b`
unfoldable pub mul : Decimal → Decimal → Decimal
mul a b = fix (record { sign = differ a.sign b.sign; int = a.int * b.int; exp = a.exp +ℤ b.exp })

-- The loop that takes an exact quotient towards its ideal exponent, at most `k` places away.
unfoldable pub strip_zeros : ℕ → ℕ → ℤ → ℕ × ℤ
strip_zeros zero c e = (c, e)
strip_zeros (suc k) c e =
    let rest = strip_zeros k (c / 10) (e +ℤ pos 1) in if c % 10 == 0 then rest else (c, e)

-- Numerator and denominator of the integer division, and the exponent of its quotient.
unfoldable pub shifted : ℕ → ℕ → ℤ → ℕ × ℕ × ℤ
shifted a b e =
    let la = digits a in
    let lb = digits b + precision + 1 in
    if leb la lb
    then (a * 10 ^ (lb - la), b, e -ℤ pos (lb - la))
    else (a, b * 10 ^ (la - lb), e +ℤ pos (la - lb))

unfoldable pub quotient : ℕ → ℕ → ℤ → ℕ × ℤ
quotient a b ideal =
    let (n, d, e) = shifted a b ideal in
    let c = n / d in
    if n % d == 0 then strip_zeros (gap ideal e) c e else (if c % 5 == 0 then c + 1 else c, e)

-- `a / b`, where `b` is not zero; `none` stands for the raise at a zero divisor.
unfoldable pub div : Decimal → Decimal → Option Decimal
div a b =
    if b.int == 0
    then none
    else if a.int == 0
    then some (record { sign = differ a.sign b.sign; int = 0; exp = a.exp -ℤ b.exp })
    else let (c, e) = quotient a.int b.int (a.exp -ℤ b.exp) in
      some (fix (record { sign = differ a.sign b.sign; int = c; exp = e }))

-- Comparisons are exact: no rounding.
abbrev compare_by : (ℕ → ℕ → Bool) → Decimal → Decimal → Bool
compare_by test a b =
    let e = min_ℤ a.exp b.exp in
    let x = scaled a e in
    let y = scaled b e in
    test (plus_part a.sign x + minus_part b.sign y) (plus_part b.sign y + minus_part a.sign x)

-- `a <= b`
unfoldable pub le : Decimal → Decimal → Bool
le = compare_by leb

-- `a < b`, and `b > a`
unfoldable pub lt : Decimal → Decimal → Bool
lt = compare_by ltb

-- `a == b`
unfoldable pub eq : Decimal → Decimal → Bool
eq = compare_by ◌==◌
