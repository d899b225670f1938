-- ===== src/Runtime/Uuid7/Tests.antt =====
-- Runs of the generator, also with a clock that goes back.
use pentagon5_foundation.Prelude.{
  ℕ, ◌+◌, ◌-◌, ◌*◌, ◌/◌, ◌%◌, ◌^◌, ◌<◌, ◌≡◌, refl, List, [], ◌∷◌, some, arith,
}
use pentagon5_foundation.Runtime.Uuid7.{
  start, advance, next_random, layout, uuid7, uuids, clock_after,
}
use pentagon5_foundation.Runtime.Uuid7.Order.{IsIncreasing, layout_fields, uuids_increase}

abbrev calls : List (ℕ × ℕ)
calls = (5000000, 2 ^ 74 - 1) ∷ (3000000, 7) ∷ (9000000, 8) ∷ []

after_calls : clock_after calls start ≡ record { last_millisecond = some 9; last_random = 8 }
unfolding clock_after uuid7 advance next_random
after_calls = refl

layout_fields_example :
    (layout 9 8 < 2 ^ 128)
    × (layout 9 8 / 2 ^ 80 ≡ 9 % 2 ^ 48)
    × (layout 9 8 / 2 ^ 76 % 16 ≡ 7)
    × (layout 9 8 / 2 ^ 62 % 4 ≡ 2)
    × (layout 9 8 / 2 ^ 64 % 2 ^ 12 * 2 ^ 62 + layout 9 8 % 2 ^ 62 ≡ 8)
layout_fields_example = layout_fields 9 8 (omega arith)

uuids_increase_example : IsIncreasing 0 (uuids calls start)
unfolding clock_after uuid7 advance next_random
uuids_increase_example =
    uuids_increase calls start (omega arith, (omega arith, (omega arith, tt))) (omega arith) refl
