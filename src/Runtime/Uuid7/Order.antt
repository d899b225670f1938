-- ===== src/Runtime/Uuid7/Order.antt =====
-- backend/pentagon5_runtime/uuid7.py: the fields of a UUID, and the order of the UUIDs of a process.
use Prim.Native.Nat.{bit_or}
use pentagon5_foundation.Prelude.{
  ℕ, Bool, true, ◌+◌, ◌*◌, ◌/◌, ◌%◌, ◌^◌, ◌<◌, ◌≡◌, refl, subst, All, Option, none, some, List, [],
  ◌∷◌, arith, ltb,
}
use pentagon5_foundation.Prelude.Bits.{◌<<◌, bit_or-shift, bit_and-mask}
use pentagon5_foundation.Runtime.Uuid7.{
  Clock, next_random, advance, layout, uuid7, uuids, clock_after,
}

version_field : (m : ℕ) → bit_or (m << 80) (7 << 76) ≡ (m * 16 + 7) << 76
version_field m = omega (arith, bit_or-shift 80 m (7 * 2 ^ 76) (omega arith))

random_a_field : (q a : ℕ) → a < 2 ^ 12 → bit_or (q << 76) (a << 64) ≡ (q * 2 ^ 12 + a) << 64
random_a_field q a h = omega (arith, bit_or-shift 76 q (a * 2 ^ 64) (omega arith))

variant_field : (q : ℕ) → bit_or (q << 64) (2 << 62) ≡ (q * 4 + 2) << 62
variant_field q = omega (arith, bit_or-shift 64 q (2 * 2 ^ 62) (omega arith))

-- The fields do not overlap, so that the value is their sum.
layout_sum :
    (ms r : ℕ)
    → r < 2 ^ 74
    → layout ms r
      ≡ (ms % 2 ^ 48) * 2 ^ 80 + 7 * 2 ^ 76 + (r / 2 ^ 62) * 2 ^ 64 + 2 * 2 ^ 62 + r % 2 ^ 62
unfolding layout
layout_sum ms r h =
    let m = ms % 2 ^ 48 in
    let a = r / 2 ^ 62 in
    rw
      (
        bit_and-mask 48 ms,
        bit_and-mask 62 r,
        version_field m,
        random_a_field (m * 16 + 7) a (omega arith),
        variant_field ((m * 16 + 7) * 2 ^ 12 + a),
        bit_or-shift 62 (((m * 16 + 7) * 2 ^ 12 + a) * 4 + 2) (r % 2 ^ 62) (omega arith),
      )
      (omega arith)

-- A UUID fits 128 bits, has the version 7 and the RFC 9562 variant, and its other fields are the
-- millisecond modulo 2 ^ 48 and the 74 random bits.
pub layout_fields :
    (ms r : ℕ)
    → r < 2 ^ 74
    → (layout ms r < 2 ^ 128)
      × (layout ms r / 2 ^ 80 ≡ ms % 2 ^ 48)
      × (layout ms r / 2 ^ 76 % 16 ≡ 7)
      × (layout ms r / 2 ^ 62 % 4 ≡ 2)
      × (layout ms r / 2 ^ 64 % 2 ^ 12 * 2 ^ 62 + layout ms r % 2 ^ 62 ≡ r)
layout_fields ms r h =
    let e = layout_sum ms r h in
    (omega (arith, e), omega (arith, e), omega (arith, e), omega (arith, e), omega (arith, e))

-- The random bits of a call are 74 bits.
abbrev pub Fits : Clock → Type 0
Fits clock = clock.last_random < 2 ^ 74

-- The value that the last call returned.
abbrev pub last_value : Clock → ℕ
last_value clock = elim clock.last_millisecond [ none ↦ 0 | some ms ↦ layout ms clock.last_random ]

abbrev pub last_small : Clock → Bool
last_small clock = elim clock.last_millisecond [ none ↦ true | some ms ↦ ltb ms (2 ^ 48) ]

layout_less :
    (ms r later s : ℕ)
    → r < 2 ^ 74
    → s < 2 ^ 74
    → later < 2 ^ 48
    → ms * 2 ^ 74 + r < later * 2 ^ 74 + s
    → layout ms r < layout later s
layout_less ms r later s h k small less = omega (arith, layout_sum ms r h, layout_sum later s k)

-- A call moves on, in the order of milliseconds and then of random bits.
advance_less :
    (time_ns bits last random : ℕ)
    → bits < 2 ^ 74
    → random < 2 ^ 74
    → (last * 2 ^ 74 + random
        < (advance time_ns bits (some last) random).0 * 2 ^ 74
          + (advance time_ns bits (some last) random).1)
      × ((advance time_ns bits (some last) random).1 < 2 ^ 74)
unfolding advance next_random
advance_less time_ns bits last random h k = ground (arith, bit_and-mask 74 (random + 1))

layout_positive : (ms r : ℕ) → r < 2 ^ 74 → 0 < layout ms r
layout_positive ms r h = omega (arith, layout_sum ms r h)

step_less :
    (time_ns bits : ℕ) (last : Option ℕ) (random : ℕ)
    → bits < 2 ^ 74
    → random < 2 ^ 74
    → (advance time_ns bits last random).0 < 2 ^ 48
    → ((elim last [ none ↦ 0 | some ms ↦ layout ms random ])
        < layout (advance time_ns bits last random).0 (advance time_ns bits last random).1)
      × ((advance time_ns bits last random).1 < 2 ^ 74)
unfolding advance
step_less time_ns bits none random h k small = (layout_positive _ bits h, h)
step_less time_ns bits (some last) random h k small =
    let (less, fits) = advance_less time_ns bits last random h k in
    (layout_less last random _ _ k fits small less, fits)

-- Each UUID of a process is greater than the one before, whatever the clock does, as long as the
-- millisecond that it is made of fits 48 bits.
pub uuid7_increases :
    (time_ns bits : ℕ) (clock : Clock)
    → bits < 2 ^ 74
    → Fits clock
    → last_small (uuid7 time_ns bits clock).1 ≡ true
    → (last_value clock < (uuid7 time_ns bits clock).0) × Fits (uuid7 time_ns bits clock).1
unfolding uuid7
uuid7_increases time_ns bits clock h k small =
    step_less time_ns bits clock.last_millisecond clock.last_random h k (ground arith)

-- Each value is above the bound and above the value before.
abbrev pub IsIncreasing : ℕ → List ℕ → Type 0
IsIncreasing bound [] = Unit
IsIncreasing bound (v ∷ vs) = (bound < v) × IsIncreasing v vs

small_step :
    (time_ns bits : ℕ) (last : Option ℕ) (random : ℕ)
    → (advance time_ns bits last random).0 < 2 ^ 48
    → (elim last [ none ↦ true | some ms ↦ ltb ms (2 ^ 48) ]) ≡ true
unfolding advance next_random
small_step time_ns bits none random h = refl
small_step time_ns bits (some last) random h = ground arith

small_before :
    (calls : List (ℕ × ℕ)) (clock : Clock)
    → last_small (clock_after calls clock) ≡ true
    → last_small clock ≡ true
unfolding clock_after uuid7
small_before [] clock h = h
small_before ((time_ns, bits) ∷ calls) clock h =
    let next = small_before calls (uuid7 time_ns bits clock).1 h in
    small_step time_ns bits clock.last_millisecond clock.last_random (ground arith)

value_kept :
    (time_ns bits : ℕ) (clock : Clock)
    → last_value (uuid7 time_ns bits clock).1 ≡ (uuid7 time_ns bits clock).0
unfolding uuid7
value_kept time_ns bits clock = refl

-- All UUIDs of a process come out in increasing order, whatever its clock does, as long as the
-- millisecond of the last one fits 48 bits.
pub uuids_increase :
    (calls : List (ℕ × ℕ)) (clock : Clock)
    → All (λ c. c.1 < 2 ^ 74) calls
    → Fits clock
    → last_small (clock_after calls clock) ≡ true
    → IsIncreasing (last_value clock) (uuids calls clock)
unfolding clock_after uuids
uuids_increase [] clock fit h small = tt
uuids_increase ((time_ns, bits) ∷ calls) clock fit h small =
    let (less, fits) =
      uuid7_increases time_ns bits clock fit.0 h
        (small_before calls (uuid7 time_ns bits clock).1 small) in
    (
      less,
      subst (λ v. IsIncreasing v (uuids calls (uuid7 time_ns bits clock).1))
          (value_kept time_ns bits clock)
          (uuids_increase calls (uuid7 time_ns bits clock).1 fit.1 fits small),
    )
