-- ===== src/Schema/Migrations.antt =====
-- infrastructure/database/migrations/versions: the two migrations. What Alembic, SQLAlchemy and
-- PostgreSQL do with a statement on a database `D` is the parameter `Ddl`, with their errors `E`.
use pentagon5_foundation.Prelude.{
  String, ◌≡◌, refl, List, [], ◌∷◌, ◌++◌, Result, ok, and_then, and_then_parts, arith, Result-cases,
  inl, inr,
}
use pentagon5_foundation.Schema.{Table}
use pentagon5_foundation.Schema.V0001.Catalog as V0001
use pentagon5_foundation.Schema.V0002.{addition_tables}

-- The trigger function and the two triggers of `audit.events`.
pub data Routine : Type 0 where
  reject_event_mutation events_append_only events_reject_truncate : Routine

-- `drop_routine` is `DROP … IF EXISTS`.
pub record Ddl (D E : Type 0) : Type 0 where
  pub create_schema : String → D → Result E D
  pub drop_schema : String → D → Result E D
  pub create_all : List Table → D → Result E D
  pub drop_all : List Table → D → Result E D
  pub create_routine : Routine → D → Result E D
  pub drop_routine : Routine → D → Result E D
  pub create_table : Table → D → Result E D
  pub drop_table : Table → D → Result E D

abbrev pub IsUndo : {A D E : Type 0} → (A → D → Result E D) → (A → D → Result E D) → Type 0
IsUndo {A = A} {D = D} create drop = (a : A) (d d' : D) → create a d ≡ ok d' → drop a d' ≡ ok d

-- What is relied on: a statement that drops something, right after the one that created it, leaves
-- the database as it was.
pub record IsUndone {D E : Type 0} (ddl : Ddl D E) : Type 0 where
  pub schema : IsUndo ddl.create_schema ddl.drop_schema
  pub all : IsUndo ddl.create_all ddl.drop_all
  pub routine : IsUndo ddl.create_routine ddl.drop_routine
  pub table : IsUndo ddl.create_table ddl.drop_table

-- `SCHEMAS`
abbrev pub schemas : List String
schemas =
    "identity" ∷ "personalization" ∷ "workspace" ∷ "operations" ∷ "market" ∷ "trading" ∷ "audit"
    ∷ []

unfoldable pub reversed : {A : Type 0} → List A → List A
reversed [] = []
reversed (x ∷ xs) = reversed xs ++ (x ∷ [])

-- A loop of statements, which ends at the first error.
unfoldable pub for_each : {A D E : Type 0} → (A → D → Result E D) → List A → D → Result E D
for_each statement [] d = ok d
for_each statement (x ∷ xs) d = and_then (statement x d) (for_each statement xs)

module _ {D E : Type 0} (ddl : Ddl D E) where
  unfoldable pub upgrade_0001 : D → Result E D
  upgrade_0001 d = and_then (for_each ddl.create_schema schemas d) λ d.
      and_then (ddl.create_all V0001.tables d) (
        for_each ddl.create_routine
          (reject_event_mutation ∷ events_append_only ∷ events_reject_truncate ∷ []))

  unfoldable pub downgrade_0001 : D → Result E D
  downgrade_0001 d =
      and_then
        (for_each ddl.drop_routine
          (events_reject_truncate ∷ events_append_only ∷ reject_event_mutation ∷ []) d)
        λ d. and_then (ddl.drop_all V0001.tables d) (for_each ddl.drop_schema (reversed schemas))

  unfoldable pub upgrade_0002 : D → Result E D
  upgrade_0002 = for_each ddl.create_table addition_tables

  unfoldable pub downgrade_0002 : D → Result E D
  downgrade_0002 = for_each ddl.drop_table (reversed addition_tables)

  -- From the base to the head, and back: Alembic follows `down_revision`.
  unfoldable pub upgrade : D → Result E D
  upgrade d = and_then (upgrade_0001 d) upgrade_0002

  unfoldable pub downgrade : D → Result E D
  downgrade d = and_then (downgrade_0002 d) downgrade_0001

for_each-append :
    {A D E : Type 0} (statement : A → D → Result E D) (xs ys : List A) (d : D)
    → for_each statement (xs ++ ys) d ≡ and_then (for_each statement xs d) (for_each statement ys)
unfolding for_each
for_each-append statement [] ys d = refl
for_each-append statement (x ∷ xs) ys d = elim (Result-cases (statement x d)) [
  | inl (m, e) ↦ rw e (for_each-append statement xs ys m)
  | inr (x, e) ↦ rw e refl
]

for_each_undone :
    {A D E : Type 0} (create drop : A → D → Result E D)
    → IsUndo create drop
    → (xs : List A) (d d' : D) → for_each create xs d ≡ ok d'
    → for_each drop (reversed xs) d' ≡ ok d
unfolding for_each reversed
for_each_undone create drop h [] d d' e = ground (arith, e)
for_each_undone create drop h (x ∷ xs) d d' e =
    let (m, a, b) = and_then_parts (create x d) (for_each create xs) e in
    rw
      (
        for_each-append drop (reversed xs) (x ∷ []) d',
        for_each_undone create drop h xs m d' b,
        h x d m a,
      )
      refl

module _ {D E : Type 0} (ddl : Ddl D E) (undone : IsUndone ddl) where
  first_undone : (d d' : D) → upgrade_0001 ddl d ≡ ok d' → downgrade_0001 ddl d' ≡ ok d
  unfolding upgrade_0001 downgrade_0001 reversed
  first_undone d d' e =
      let (a, s, e) = and_then_parts (for_each ddl.create_schema schemas d) _ e in
      let (b, t, r) = and_then_parts (ddl.create_all V0001.tables a) _ e in
      rw
        (
          for_each_undone ddl.create_routine ddl.drop_routine undone.routine
              (reject_event_mutation ∷ events_append_only ∷ events_reject_truncate ∷ []) b d' r,
          undone.all V0001.tables a b t,
          for_each_undone ddl.create_schema ddl.drop_schema undone.schema schemas d a s,
        )
        refl

  -- Given that each statement is undone by the one that drops what it created, a database that has
  -- been upgraded from the base to the head, whatever it held before, is as it was before after the
  -- downgrade to the base: the downgrade succeeds, and drops in the reverse order of creation.
  pub downgrade-upgrade : (d d' : D) → upgrade ddl d ≡ ok d' → downgrade ddl d' ≡ ok d
  unfolding upgrade downgrade upgrade_0002 downgrade_0002
  downgrade-upgrade d d' e =
      let (m, a, b) = and_then_parts (upgrade_0001 ddl d) (upgrade_0002 ddl) e in
      rw (for_each_undone ddl.create_table ddl.drop_table undone.table addition_tables m d' b)
        (first_undone d m a)
