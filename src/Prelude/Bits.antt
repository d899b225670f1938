-- ===== src/Prelude/Bits.antt =====
-- Python's shifts, `|` and `&` on numbers that are not negative.
use Prim.Native.Nat.{
  ℕ, zero, suc, ◌+◌, ◌-◌, ◌*◌, ◌/◌, ◌%◌, ◌^◌, ◌≤◌, ◌<◌, min, max, digits, bit_or, bit_and,
  bit_or-bitwise, bit_and-bitwise,
}
use mathlib.Core.Path.{◌≡◌, refl, ap}
use native.Mathlib.Omega.{arith}
use native.Mathlib.Nat.{pow-suc, one-le-pow, le_refl}

infixl 55 ◌<<◌ ◌>>>◌
abbrev pub ◌<<◌ : ℕ → ℕ → ℕ
a << k = a * 2 ^ k

abbrev pub ◌>>>◌ : ℕ → ℕ → ℕ
a >>> k = a / 2 ^ k

shift_suc : (q k : ℕ) → q * 2 ^ suc k ≡ 2 * (q * 2 ^ k)
shift_suc q k = omega (arith, ap (λ p. q * p) (pow-suc 2 k))

or_zero : (n r : ℕ) → digits (λ b. b) max n 0 r ≡ r
or_zero zero r = refl
or_zero (suc n) r = refl

or_digit :
    (n a r : ℕ)
    → digits (λ b. b) max (suc n) a r
      ≡ digits (λ b. b) max n (a / 2) (r / 2) * 2 + max (a % 2) (r % 2)
or_digit n zero r = omega (arith, or_zero n (r / 2))
or_digit n (suc a) r = refl

-- With enough digits to go, the union of a field and of the bits below it is their sum.
or_digits :
    (n k q r : ℕ) → q * 2 ^ k ≤ n → r < 2 ^ k → digits (λ b. b) max n (q * 2 ^ k) r ≡ q * 2 ^ k + r
or_digits zero k q r fuel low = ground arith
or_digits (suc n) zero zero r fuel low = ground arith
or_digits (suc n) zero (suc q) r fuel low = ground (arith, or_digits n 0 (suc q / 2) (r / 2))
or_digits (suc n) (suc k) q r fuel low = ground (
  arith,
  or_digit n (q * 2 ^ suc k) r,
  shift_suc q k,
  pow-suc 2 k,
  or_digits n k q (r / 2) (omega (arith, shift_suc q k)) (omega (arith, pow-suc 2 k)),
)

and_zero : (n b : ℕ) → digits (λ b. 0) min n 0 b ≡ 0
and_zero zero b = refl
and_zero (suc n) b = refl

and_digit :
    (n a b : ℕ)
    → digits (λ b. 0) min (suc n) a b
      ≡ digits (λ b. 0) min n (a / 2) (b / 2) * 2 + min (a % 2) (b % 2)
and_digit n zero b = omega (arith, and_zero n (b / 2))
and_digit n (suc a) b = refl

-- With enough digits to go, a mask of low bits leaves a remainder.
and_digits :
    (n k q r : ℕ)
    → q * 2 ^ k + r ≤ n
    → r < 2 ^ k
    → digits (λ b. 0) min n (q * 2 ^ k + r) (2 ^ k - 1) ≡ r
and_digits zero k q r fuel low = ground arith
and_digits (suc n) zero q r fuel low = ground (arith, and_digit n q 0, and_digits n 0 (q / 2) 0)
and_digits (suc n) (suc k) q r fuel low = ground (
  arith,
  and_digit n (q * 2 ^ suc k + r) (2 ^ suc k - 1),
  shift_suc q k,
  pow-suc 2 k,
  one-le-pow k 2,
  and_digits n k q (r / 2) (omega (arith, shift_suc q k)) (omega (arith, pow-suc 2 k)),
)

pub bit_or-shift : (k q r : ℕ) → r < 2 ^ k → bit_or (q << k) r ≡ (q << k) + r
bit_or-shift k q r low = simp bit_or-bitwise (or_digits (q * 2 ^ k) k q r (le_refl _) low)

pub bit_and-mask : (k a : ℕ) → bit_and a (2 ^ k - 1) ≡ a % 2 ^ k
bit_and-mask k a =
    let parts : a / 2 ^ k * 2 ^ k + a % 2 ^ k ≡ a = ground (arith, one-le-pow k 2) in
    simp bit_and-bitwise
      (ground (arith, one-le-pow k 2, parts, and_digits a k (a / 2 ^ k) (a % 2 ^ k)))
