-- ===== src/Market/Yahoo/Series.antt =====
-- src/marketdata/provider.py: the loop of `_latest_complete_index`.
use pentagon5_foundation.Prelude.{
  ℕ, zero, suc, String, ◌<◌, ◌≤◌, ◌≡◌, refl, Bool, true, false, ◌&&◌, not, Option, none, some, List,
  [], ◌∷◌, if◌then◌else◌, arith, leb, ◌||◌, ◌≢◌, ◌⊎◌, inl, inr, Bool-cases,
}
use pentagon5_foundation.Prelude.Json.{Json, Members, array, get, elements, is_null}

abbrev pub nth : {A : Type 0} → ℕ → List A → Option A
nth i [] = none
nth zero (x ∷ xs) = some x
nth (suc i) (x ∷ xs) = nth i xs

abbrev pub columns : List String
columns = "open" ∷ "high" ∷ "low" ∷ "close" ∷ "volume" ∷ []

Nat-cases : (j n : ℕ) → (j ≡ n) ⊎ (j ≢ n)
Nat-cases j n = ground arith

module _ {F : Type 0} where
  -- `isinstance(values.get(key), list) and index < len(values[key]) and values[key][index] is not None`
  unfoldable pub present : ℕ → Option (Json F) → Bool
  present index (some (array a)) = not (is_null (nth index (elements a)))
  present index _ = false

  unfoldable pub all_present : List String → ℕ → Members F → Bool
  all_present [] index values = true
  all_present (k ∷ ks) index values = present index (get k values) && all_present ks index values

  abbrev pub complete : ℕ → Members F → Bool
  complete index values = all_present columns index values

  -- The loop from the last index below the argument down to 0.
  unfoldable pub latest_complete : ℕ → Members F → Option ℕ
  latest_complete zero values = none
  latest_complete (suc n) values =
      let earlier = latest_complete n values in if complete n values then some n else earlier

  -- No index above `i` and below `n` has a complete candle.
  unfoldable pub none_later : ℕ → ℕ → Members F → Bool
  none_later i zero values = true
  none_later i (suc n) values =
      let below = none_later i n values in (leb n i || not (complete n values)) && below

  none_later_above : (i n : ℕ) (values : Members F) → n ≤ suc i → none_later i n values ≡ true
  unfolding none_later
  none_later_above i zero values h = refl
  none_later_above i (suc n) values h = ground (arith, h, none_later_above i n values)

  -- The index that the loop gives is below the bound, its candle is complete, and no later one below
  -- the bound is.
  pub latest_complete_lem :
      (n : ℕ) (values : Members F) {i : ℕ}
      → latest_complete n values ≡ some i
      → (i < n) × (complete i values ≡ true) × (none_later i n values ≡ true)
  unfolding latest_complete none_later
  latest_complete_lem zero values e = ground arith
  latest_complete_lem (suc n) values {i = i} e = elim (Bool-cases (complete n values)) [
    | inl c ↦
        let same : some n ≡ some i = ground (arith, e, c) in
        (
          ground (arith, same),
          ground (arith, same, c),
          ground (arith, same, none_later_above i n values),
        )
    | inr c ↦
        let (below, now, later) = latest_complete_lem n values {i = i} (ground (arith, e, c)) in
        (omega (arith, below), now, ground (arith, c, later))
  ]

  -- Where it gives none, no candle is complete.
  pub latest_complete-none :
      (n : ℕ) (values : Members F)
      → latest_complete n values ≡ none
      → (j : ℕ) → j < n
      → complete j values ≡ false
  unfolding latest_complete
  latest_complete-none zero values e j h = ground arith
  latest_complete-none (suc n) values e j h = elim (Bool-cases (complete n values)) [
    | inl c ↦ ground (arith, e, c)
    | inr c ↦ elim (Nat-cases j n) [
      | inl s ↦ rw s c
      | inr d ↦ latest_complete-none n values (ground (arith, e, c)) j (omega (arith, h, d))
    ]
  ]
