-- ===== src/Decimal/Digits.antt =====
-- The number of decimal digits of a coefficient, `len(str(n))`.
use native.Mathlib.Nat.{
  pow-succ', pow-suc, pow-zero, add-zero, add-suc, mul-one, mul_assoc, one-le-pow,
}
use native.Mathlib.Numerals.{add-one}
use pentagon5_foundation.Prelude.{
  ℕ, zero, suc, ◌+◌, ◌-◌, ◌*◌, ◌/◌, ◌^◌, ◌≤◌, ◌<◌, ◌≡◌, arith, Bool-cases, inl, inr, ltb,
  if◌then◌else◌,
}

-- Each round divides by 10, so `suc n` rounds are more than enough.
count_digits : ℕ → ℕ → ℕ
count_digits zero n = 1
count_digits (suc f) n = let rest = count_digits f (n / 10) in if ltb n 10 then 1 else rest + 1

unfoldable pub digits : ℕ → ℕ
unfolding count_digits
digits n = count_digits (suc n) n

count_digits-pos : (f n : ℕ) → 0 < count_digits f n
unfolding count_digits
count_digits-pos zero n = omega arith
count_digits-pos (suc f) n = ground arith

-- A power with a positive exponent has a factor of 10.
pow_step : (k : ℕ) → 0 < k → 10 ^ k ≡ 10 * 10 ^ (k - 1)
pow_step zero h = absurd (omega arith)
pow_step (suc k) h = let e : suc k - 1 ≡ k = omega arith in rw e (pow-succ' 10 k)

count_digits_lower : (f n : ℕ) → n < f → 0 < n → 10 ^ (count_digits f n - 1) ≤ n
unfolding count_digits
count_digits_lower zero n h p = absurd (omega arith)
count_digits_lower (suc f) n h p = elim (Bool-cases (ltb n 10)) [
  | inl small ↦ rw small (omega arith)
  | inr large ↦ rw large (
      let big : 10 ≤ n = ground arith in
      let k : ℕ = count_digits f (n / 10) in
      let back : k + 1 - 1 ≡ k = omega arith in
      rw back (
        omega (
          arith,
          pow_step k (count_digits-pos f (n / 10)),
          count_digits_lower f (n / 10) (omega arith) (omega arith),
        )))
]

count_digits_upper : (f n : ℕ) → n < f → n < 10 ^ count_digits f n
unfolding count_digits
count_digits_upper zero n h = absurd (omega arith)
count_digits_upper (suc f) n h = elim (Bool-cases (ltb n 10)) [
  | inl small ↦ rw small (ground arith)
  | inr large ↦ rw large (
      let big : 10 ≤ n = ground arith in
      let k : ℕ = count_digits f (n / 10) in
      let up : 10 ^ (k + 1) ≡ 10 * 10 ^ k = rw add-one (pow-succ' 10 k) in
      rw up (omega (arith, count_digits_upper f (n / 10) (omega arith))))
]

-- A positive number with d digits is at least 10 to the d - 1, and every number is below 10 to the d.
pub digits_lower : (n : ℕ) → 0 < n → 10 ^ (digits n - 1) ≤ n
unfolding digits
digits_lower n p = count_digits_lower (suc n) n (omega arith) p

pub digits_upper : (n : ℕ) → n < 10 ^ digits n
unfolding digits
digits_upper n = count_digits_upper (suc n) n (omega arith)

pub pow-add : (n a b : ℕ) → n ^ (a + b) ≡ n ^ a * n ^ b
pow-add n a zero = rw (add-zero, pow-zero, mul-one)
pow-add n a (suc b) = rw (add-suc, pow-suc, pow-suc, pow-add n a b) (mul_assoc (n ^ a) (n ^ b) n)

pub pow-pos : (k : ℕ) → 0 < 10 ^ k
pow-pos k = one-le-pow k 10 (omega arith)

pub digits-pos : (n : ℕ) → 0 < digits n
unfolding digits
digits-pos n = count_digits-pos (suc n) n
