-- ===== src/Runtime/Uuid7/Text.antt =====
-- backend/pentagon5_runtime/uuid7.py: `is_uuid7`, over `uuid.UUID(text)` and `str(uuid)`.
use pentagon5_foundation.Prelude.{
  ℕ, String, Bool, true, false, ◌&&◌, ◌/◌, ◌%◌, ◌^◌, ◌<◌, ◌≡◌, Option, none, some, str_eq, ◌==◌,
  arith, eq_refl,
}
use pentagon5_foundation.Runtime.Uuid7.{layout}
use pentagon5_foundation.Runtime.Uuid7.Order.{layout_fields}

-- `parse` is none where `uuid.UUID` raises; `show` is the canonical lowercase form.
pub record Uuids : Type 0 where
  pub parse : String → Option ℕ
  pub show : ℕ → String

-- What is relied on: the canonical form of a number of 128 bits is read back.
pub record IsReadBack (u : Uuids) : Type 0 where
  pub shown : (n : ℕ) → n < 2 ^ 128 → u.parse (u.show n) ≡ some n

-- `version` is the digit at bit 76, and the RFC 4122 variant is the bits 10 at bit 62; a UUID of
-- another variant has no version.
unfoldable pub is_uuid7 : Uuids → String → Bool
is_uuid7 u value = elim (u.parse value) [
  | none ↦ false
  | some n ↦ str_eq (u.show n) value && (n / 2 ^ 76 % 16 == 7) && (n / 2 ^ 62 % 4 == 2)
]

-- The canonical text of a generated UUID passes the test.
pub is_uuid7-show :
    (u : Uuids)
    → IsReadBack u
    → (millisecond random_bits : ℕ) → random_bits < 2 ^ 74
    → is_uuid7 u (u.show (layout millisecond random_bits)) ≡ true
unfolding is_uuid7
is_uuid7-show u back millisecond random_bits h =
    let (small, time, version, variant, random) = layout_fields millisecond random_bits h in
    ground (
      arith,
      back.shown (layout millisecond random_bits) small,
      eq_refl (u.show (layout millisecond random_bits)),
      version,
      variant,
    )
