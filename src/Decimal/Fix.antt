-- ===== src/Decimal/Fix.antt =====
-- What the context's rounding keeps: the sign, zero and non-zero, and at most 28 digits.
use native.Mathlib.Nat.{le-div_iff_mul-le, div-lt_iff_lt-mul, pow-le-pow_right}
use pentagon5_foundation.Prelude.{
  ℕ, ◌+◌, ◌-◌, ◌*◌, ◌/◌, ◌%◌, ◌^◌, ◌≤◌, ◌<◌, ◌≡◌, inl, inr, Bool, arith, leb, Bool-cases,
}
use pentagon5_foundation.Prelude.Int.{ℤ, pos, ◌+ℤ◌}
use pentagon5_foundation.Decimal.Digits.{digits, digits_lower, digits_upper, pow-add, pow-pos}
use pentagon5_foundation.Decimal.{Decimal, carried, round_up, drop_digits, fix}

-- A result that fits is not rounded.
pub fix_exact : (d : Decimal) → digits d.int ≤ 28 → fix d ≡ d
unfolding fix
fix_exact d h = ground arith

carried_sign : (s : Bool) (q : ℕ) (e : ℤ) → (carried s q e).sign ≡ s
unfolding carried
carried_sign s q e = ground arith

carried-pos : (s : Bool) (q : ℕ) (e : ℤ) → 0 < q → 0 < (carried s q e).int
unfolding carried
carried-pos s q e h = ground arith

carried_bound : (s : Bool) (q : ℕ) (e : ℤ) → q ≤ 10 ^ 28 → (carried s q e).int < 10 ^ 28
unfolding carried
carried_bound s q e h = ground arith

drop_digits_sign : (k : ℕ) (d : Decimal) → (drop_digits k d).sign ≡ d.sign
unfolding drop_digits
drop_digits_sign k d = carried_sign _ _ _

drop_digits-pos : (k : ℕ) (d : Decimal) → 0 < d.int / 10 ^ k → 0 < (drop_digits k d).int
unfolding drop_digits round_up
drop_digits-pos k d h =
    carried-pos d.sign (round_up (d.int / 10 ^ k) (d.int % 10 ^ k) (10 ^ k)) (d.exp +ℤ pos k)
      (ground arith)

drop_digits_bound :
    (k : ℕ) (d : Decimal) → d.int / 10 ^ k < 10 ^ 28 → (drop_digits k d).int < 10 ^ 28
unfolding drop_digits round_up
drop_digits_bound k d h =
    carried_bound d.sign (round_up (d.int / 10 ^ k) (d.int % 10 ^ k) (10 ^ k)) (d.exp +ℤ pos k)
      (ground arith)

-- The digits that are dropped leave a quotient of exactly 28 digits.
quotient_lower : (n : ℕ) → 28 < digits n → 0 < n → 0 < n / 10 ^ (digits n - 28)
quotient_lower n h p =
    let k = digits n - 28 in
    let e : digits n - 1 ≡ k + 27 = omega arith in
    let low : 10 ^ (k + 27) ≤ n = rw e at (digits_lower n p) in
    (le-div_iff_mul-le (pow-pos k)).1 (omega (arith, low, pow-add 10 k 27, pow-pos k))

quotient_upper : (n : ℕ) → 28 < digits n → n / 10 ^ (digits n - 28) < 10 ^ 28
quotient_upper n h =
    let k = digits n - 28 in
    let e : digits n ≡ 28 + k = omega arith in
    let up : n < 10 ^ 28 * 10 ^ k = rw (← pow-add 10 28 k, ← e) (digits_upper n) in
    (div-lt_iff_lt-mul (pow-pos k)).1 up

pub fix_sign : (d : Decimal) → (fix d).sign ≡ d.sign
unfolding fix
fix_sign d = elim (Bool-cases (leb (digits d.int) 28)) [
  | inl fits ↦ rw fits
  | inr long ↦ rw long (drop_digits_sign (digits d.int - 28) d)
]

pub fix-pos : (d : Decimal) → 0 < d.int → 0 < (fix d).int
unfolding fix
fix-pos d h = elim (Bool-cases (leb (digits d.int) 28)) [
  | inl fits ↦ rw fits h
  | inr long ↦
      rw long (drop_digits-pos (digits d.int - 28) d (quotient_lower d.int (ground arith) h))
]

below_pow : (n : ℕ) → digits n ≤ 28 → n < 10 ^ 28
below_pow n h =
    omega (arith, digits_upper n, pow-le-pow_right {n = 10} (omega arith) {i = digits n} {j = 28} h)

-- Every result has at most 28 digits.
pub fix_bound : (d : Decimal) → (fix d).int < 10 ^ 28
unfolding fix
fix_bound d = elim (Bool-cases (leb (digits d.int) 28)) [
  | inl fits ↦ rw fits (below_pow d.int (ground arith))
  | inr long ↦
      rw long (drop_digits_bound (digits d.int - 28) d (quotient_upper d.int (ground arith)))
]
