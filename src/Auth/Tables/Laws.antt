-- ===== src/Auth/Tables/Laws.antt =====
-- What the statements over a table select, delete and change.
use pentagon5_foundation.Prelude.{
  Bool, true, false, ◌≡◌, refl, none, some, List, [], ◌∷◌, ok, err, arith, keep, ap, subst, All,
}
use pentagon5_foundation.Auth.Tables.{exists, delete_where, update_where, one_or_none}

module _ {ℓ} {A : Type ℓ} where
  -- What one statement deletes, no later statement with a narrower test selects.
  pub keep-delete_where :
      (p q : A → Bool) (xs : List A)
      → ((x : A) → q x ≡ true → p x ≡ true)
      → keep q (delete_where p xs) ≡ []
  unfolding keep delete_where
  keep-delete_where p q [] h = refl
  keep-delete_where p q (x ∷ xs) h = ground (arith, h x, keep-delete_where p q xs h)

  pub keep-absent :
      (p q : A → Bool) (xs : List A)
      → exists p xs ≡ false
      → ((x : A) → q x ≡ true → p x ≡ true)
      → keep q xs ≡ []
  unfolding keep exists
  keep-absent p q [] e h = refl
  keep-absent p q (x ∷ xs) e h = ground (arith, h x, keep-absent p q xs)

  -- No row passes a test that every changed row fails and that fails on every row left alone.
  pub keep-update_where :
      (p q : A → Bool) (f : A → A) (xs : List A)
      → ((x : A) → p x ≡ true → q (f x) ≡ false)
      → ((x : A) → p x ≡ false → q x ≡ false)
      → keep q (update_where p f xs) ≡ []
  unfolding keep update_where
  keep-update_where p q f [] h k = refl
  keep-update_where p q f (x ∷ xs) h k = ground (arith, h x, k x, keep-update_where p q f xs h k)

-- What holds of all selected rows holds of the one row.
pub one_or_none-All :
    {A : Type 0} (P : A → Type 0) {a : A} (xs : List A)
    → All P xs
    → one_or_none xs ≡ ok (some a)
    → P a
unfolding one_or_none
one_or_none-All P [] h e = cc (e)
one_or_none-All P (x ∷ []) h e =
    subst P (ap (λ r. elim r [ ok (some a) ↦ a | ok none ↦ x | err e ↦ x ]) e) h.0
one_or_none-All P (x ∷ y ∷ xs) h e = cc (e)
