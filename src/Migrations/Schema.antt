-- ===== src/Migrations/Schema.antt =====
-- The parts of a database schema that the migrations and the models name.
use taskpilot_assessment.Prelude.{
  ℕ, String, Bool, true, false, ◌&&◌, ◌||◌, Option, List, [], ◌∷◌, length, ◌==◌, nat_eq, string_eq,
}

pub data ColumnType : Type 0 where
  uuid jsonb timestamptz integer text : ColumnType
  varchar : (length : ℕ) → ColumnType
  named_enum : (name : String) → ColumnType

pub record Column : Type 0 where
  pub name : String
  pub type : ColumnType
  pub nullable : Bool
  pub server_default : Option String

-- An index, with the condition of a partial one.
pub record Index : Type 0 where
  pub name : String
  pub table : String
  pub columns : List String
  pub unique : Bool
  pub condition : Option String

-- A check is its name and its expression.
pub record Table : Type 0 where
  pub name : String
  pub columns : List Column
  pub checks : List (String × String)
  pub primary_key : List String

-- The calls of `op`; the type of the enum is created and dropped with `checkfirst=True`.
pub data Operation : Type 0 where
  create_enum : (name : String) → (values : List String) → Operation
  drop_enum : (name : String) → Operation
  create_table : Table → Operation
  drop_table : (name : String) → Operation
  create_index : Index → Operation
  drop_index : (name table : String) → Operation
  add_column : (table : String) → Column → Operation
  drop_column : (table column : String) → Operation

abbrev type_beq : ColumnType → ColumnType → Bool
type_beq uuid uuid = true
type_beq jsonb jsonb = true
type_beq timestamptz timestamptz = true
type_beq integer integer = true
type_beq text text = true
type_beq (varchar m) (varchar n) = m == n
type_beq (named_enum m) (named_enum n) = m == n
type_beq _ _ = false

abbrev bool_beq : Bool → Bool → Bool
bool_beq true b = b
bool_beq false true = false
bool_beq false false = true

-- A column of this name, type and nullability is among the others.
abbrev has_counterpart : Column → List Column → Bool
has_counterpart c [] = false
has_counterpart c (d ∷ ds) =
    c.name == d.name && type_beq c.type d.type && bool_beq c.nullable d.nullable
    || has_counterpart c ds

abbrev all_counterparts : List Column → List Column → Bool
all_counterparts [] ds = true
all_counterparts (c ∷ cs) ds = has_counterpart c ds && all_counterparts cs ds

-- The same columns up to their order and their server defaults.
abbrev pub agrees : Table → Table → Bool
agrees t u =
    all_counterparts t.columns u.columns
    && all_counterparts u.columns t.columns
    && length t.columns == length u.columns
