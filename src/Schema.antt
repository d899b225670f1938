-- ===== src/Schema.antt =====
-- infrastructure/database/metadata.py: how a table is declared. A column, a constraint or an index
-- is what SQLAlchemy's constructors record; the condition of a check is its SQL text.
pub mod Identity
pub mod Login
pub mod Personalization
pub mod Workspaces
pub mod Operations
pub mod Market
pub mod Trading
pub mod Orders
pub mod Audit
pub mod Catalog
pub mod V0001
pub mod V0002
pub mod Migrations
mod Tests
use Prim.Native.String.{◌++◌ as ◌<>◌}
use pentagon5_foundation.Prelude.{ℕ, String, Bool, true, false, Option, none, some, List, [], ◌∷◌}

pub data SqlType : Type 0 where
  uuid_type utc_timestamp json_type text boolean integer : SqlType
  string : ℕ → SqlType
  numeric : ℕ → ℕ → SqlType

abbrev pub money : SqlType
money = numeric 24 8

abbrev pub price : SqlType
price = numeric 28 12

abbrev pub quantity : SqlType
quantity = numeric 28 12

pub data ServerDefault : Type 0 where
  now : ServerDefault
  literal : String → ServerDefault

pub data OnDelete : Type 0 where
  cascade set_null restrict : OnDelete

pub record ForeignKey : Type 0 where
  pub schema : String
  pub table : String
  pub column : String
  pub on_delete : OnDelete

pub record Column : Type 0 where
  pub name : String
  pub sql_type : SqlType
  pub is_nullable : Bool
  pub is_unique : Bool
  pub is_primary_key : Bool
  pub server_default : Option ServerDefault
  pub foreign_key : Option ForeignKey

-- A column may hold NULL unless `nullable=False` or `primary_key=True`.
abbrev pub column : String → SqlType → Column
column name sql_type = record {
  name = name;
  sql_type = sql_type;
  is_nullable = true;
  is_unique = false;
  is_primary_key = false;
  server_default = none;
  foreign_key = none;
}

abbrev pub not_null : Column → Column
not_null c = record c { is_nullable = false }

abbrev pub unique : Column → Column
unique c = record c { is_unique = true }

abbrev pub primary_key : Column → Column
primary_key c = record c { is_primary_key = true; is_nullable = false }

abbrev pub default : ServerDefault → Column → Column
default d c = record c { server_default = some d }

abbrev pub references : String → String → String → OnDelete → Column → Column
references schema table name on_delete c = record c {
  foreign_key =
      some (record { schema = schema; table = table; column = name; on_delete = on_delete });
}

abbrev pub id : Column
id = primary_key (column "id" uuid_type)

abbrev pub timestamps : List Column
timestamps =
    default now (not_null (column "created_at" utc_timestamp))
    ∷ default now (not_null (column "updated_at" utc_timestamp))
    ∷ []

pub data Constraint : Type 0 where
  unique_constraint : List String → String → Constraint
  -- its condition and its name
  check_constraint : String → String → Constraint

-- `", ".join(f"'{value}'" for value in values)`
abbrev quoted : List String → String
quoted [] = ""
quoted (v ∷ []) = "'" <> v <> "'"
quoted (v ∷ w ∷ vs) = "'" <> v <> "', " <> quoted (w ∷ vs)

abbrev pub state_check : String → List String → String → Constraint
state_check column values name = check_constraint (column <> " IN (" <> quoted values <> ")") name

pub record Table : Type 0 where
  pub schema : String
  pub name : String
  pub columns : List Column
  pub constraints : List Constraint

pub record Index : Type 0 where
  pub name : String
  pub table : Table
  pub columns : List String

abbrev pub index : String → Table → List String → Index
index name table columns = record { name = name; table = table; columns = columns }
