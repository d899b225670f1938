-- ===== src/Runtime/Uuid7.antt =====
-- backend/pentagon5_runtime/uuid7.py: `uuid7`. The module's two globals are a state, a call holds
-- the lock throughout, and `time.time_ns()` and `secrets.randbits(74)` are arguments. A UUID is its
-- number of 128 bits.
pub mod Order
pub mod Text
mod Tests
use Prim.Native.Nat.{bit_or, bit_and}
use pentagon5_foundation.Prelude.{
  ℕ, Bool, true, false, ◌+◌, ◌-◌, ◌*◌, ◌/◌, ◌%◌, ◌^◌, ◌<◌, ◌≡◌, Option, none, some, List, [], ◌∷◌,
  arith, ltb, ◌==◌, if◌then◌else◌,
}
use pentagon5_foundation.Prelude.Bits.{◌<<◌, ◌>>>◌, bit_or-shift, bit_and-mask}

-- `none` is the initial -1.
pub record Clock : Type 0 where
  pub last_millisecond : Option ℕ
  pub last_random : ℕ

abbrev pub random_mask : ℕ
random_mask = 2 ^ 74 - 1

abbrev pub start : Clock
start = record { last_millisecond = none; last_random = 0 }

-- The branch for a clock that has not moved on from the last millisecond.
unfoldable pub next_random : ℕ → ℕ → ℕ × ℕ
next_random last random =
    let bits = bit_and (random + 1) random_mask in
    if bits == 0 then (last + 1, bits) else (last, bits)

unfoldable pub advance : ℕ → ℕ → Option ℕ → ℕ → ℕ × ℕ
advance time_ns bits none random = (time_ns / 1000000, bits)
advance time_ns bits (some last) random =
    if ltb last (time_ns / 1000000) then (time_ns / 1000000, bits) else next_random last random

unfoldable pub layout : ℕ → ℕ → ℕ
layout millisecond random_bits =
    let random_a = random_bits >>> 62 in
    let random_b = bit_and random_bits (2 ^ 62 - 1) in
    bit_or
      (bit_or (bit_or (bit_or (bit_and millisecond (2 ^ 48 - 1) << 80) (7 << 76)) (random_a << 64))
        (2 << 62))
      random_b

unfoldable pub uuid7 : ℕ → ℕ → Clock → ℕ × Clock
uuid7 time_ns bits clock =
    let (millisecond, random_bits) =
      advance time_ns bits clock.last_millisecond clock.last_random in
    (
      layout millisecond random_bits,
      record { last_millisecond = some millisecond; last_random = random_bits },
    )

-- The values of calls one after the other: the clock and the random bits that each call reads.
unfoldable pub uuids : List (ℕ × ℕ) → Clock → List ℕ
uuids [] clock = []
uuids ((time_ns, bits) ∷ calls) clock =
    let (value, next) = uuid7 time_ns bits clock in value ∷ uuids calls next

unfoldable pub clock_after : List (ℕ × ℕ) → Clock → Clock
clock_after [] clock = clock
clock_after ((time_ns, bits) ∷ calls) clock = clock_after calls (uuid7 time_ns bits clock).1
