-- ===== src/Decimal/Division.antt =====
-- The quotient of two positive numbers is a positive number.
use native.Mathlib.Nat.{
  mul-le-mul, pow-le-pow_right, le_trans, le_of_suc-le, le-div_iff_mul-le, mul-pos, one-mul,
  le_refl,
}
use pentagon5_foundation.Prelude.{
  ℕ, ◌+◌, ◌-◌, ◌*◌, ◌/◌, ◌%◌, ◌^◌, ◌≤◌, ◌<◌, ◌≡◌, refl, inl, inr, false, some, arith, leb, zero,
  suc, ◌==◌, Bool-cases,
}
use pentagon5_foundation.Prelude.Int.{ℤ, pos, gap, ◌+ℤ◌, ◌-ℤ◌}
use pentagon5_foundation.Decimal.Digits.{
  digits, digits-pos, digits_lower, digits_upper, pow-add, pow-pos,
}
use pentagon5_foundation.Decimal.Sign.{IsPositive, fix-IsPositive}
use pentagon5_foundation.Decimal.{Decimal, fix, strip_zeros, shifted, quotient, div}

strip_zeros-pos : (k c : ℕ) (e : ℤ) → 0 < c → 0 < (strip_zeros k c e).0
unfolding strip_zeros
strip_zeros-pos zero c e h = h
strip_zeros-pos (suc k) c e h = elim (Bool-cases (c % 10 == 0)) [
  | inl z ↦ rw z (strip_zeros-pos k (c / 10) (e +ℤ pos 1) (ground arith))
  | inr z ↦ rw z h
]

-- Where the numerator is scaled up it reaches the denominator.
scaled_up : (a b la k : ℕ) → 0 < la → 10 ^ (la - 1) ≤ a → b < 10 ^ (la - 1 + k) → b ≤ a * 10 ^ k
scaled_up a b la k p low up =
    omega (arith, up, pow-add 10 (la - 1) k, mul-le-mul low (le_refl (10 ^ k)))

-- Where the denominator is scaled up it stays below the numerator.
scaled_down : (a b lb k m : ℕ) → b < 10 ^ lb → lb + k ≤ m → 10 ^ m ≤ a → b * 10 ^ k ≤ a
scaled_down a b lb k m up h low =
    let le : 10 ^ (lb + k) ≤ 10 ^ m = pow-le-pow_right {n = 10} (omega arith) h in
    omega (arith, le, low, pow-add 10 lb k, mul-le-mul (le_of_suc-le up) (le_refl (10 ^ k)))

-- The shift leaves a quotient that is not zero.
shifted-pos :
    (a b : ℕ) (e : ℤ) → 0 < a → 0 < b → let (n, d, e') = shifted a b e in (0 < d) × (d ≤ n)
unfolding shifted
shifted-pos a b e ha hb = elim (Bool-cases (leb (digits a) (digits b + 28 + 1))) [
  | inl up ↦ rw up (
    hb,
    let h : digits a ≤ digits b + 28 + 1 = ground arith in
        scaled_up a b (digits a) (digits b + 28 + 1 - digits a) (digits-pos a) (digits_lower a ha) (
          le_trans (digits_upper b)
            (pow-le-pow_right {n = 10} (omega arith) (omega (arith, digits-pos a)))),
  )
  | inr down ↦ rw down (
    mul-pos hb (pow-pos (digits a - (digits b + 28 + 1))),
    let h : digits b + 28 + 1 < digits a = ground arith in
        scaled_down a b (digits b) (digits a - (digits b + 28 + 1)) (digits a - 1) (digits_upper b)
          (omega arith) (digits_lower a ha),
  )
]

quotient-pos : (a b : ℕ) (e : ℤ) → 0 < a → 0 < b → 0 < (quotient a b e).0
unfolding quotient
quotient-pos a b e ha hb =
    let (n, d, e') = shifted a b e in
    let (pd, le) = shifted-pos a b e ha hb in
    let c : 0 < n / d = (le-div_iff_mul-le pd).1 (rw one-mul le) in
    elim (Bool-cases (n % d == 0)) [
      | inl exact ↦ rw exact (strip_zeros-pos (gap e e') (n / d) e' c)
      | inr rest ↦ rw rest (ground arith)
    ]

pub div-IsPositive :
    (a b : Decimal)
    → IsPositive a
    → IsPositive b
    → (q : Decimal) × (div a b ≡ some q) × IsPositive q
unfolding div
div-IsPositive a b ha hb =
    let (c, e) = quotient a.int b.int (a.exp -ℤ b.exp) in
    let r : Decimal = record { sign = false; int = c; exp = e } in
    (
      fix r,
      ground arith,
      fix-IsPositive r (refl, quotient-pos a.int b.int (a.exp -ℤ b.exp) ha.1 hb.1),
    )
