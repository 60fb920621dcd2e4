-- ===== src/Migrations/Catalogue.antt =====
-- The catalogue of a PostgreSQL database, which the calls of `op` change. PostgreSQL and Alembic are not
-- part of the repository: what each call does to the catalogue is stated as one law.
use taskpilot_assessment.Prelude.{
  String, Bool, true, false, not, ◌&&◌, ◌||◌, ◌≡◌, refl, Option, none, some, List, [], ◌∷◌, ◌++◌,
  filter, ◌==◌, string_eq, if◌then◌else◌,
}
use taskpilot_assessment.Errors.{Result, ok, ◌>>=◌}
use taskpilot_assessment.Migrations.Schema.{
  ColumnType, named_enum, Column, Index, Table, Operation, create_enum, drop_enum, create_table,
  drop_table, create_index, drop_index, add_column, drop_column,
}

-- What a catalogue holds under each name.
pub record View : Type 0 where
  pub enums : String → Option (List String)
  pub tables : String → Option Table
  pub indexes : String → Option Index

abbrev pub at {ℓ} : {A : Type ℓ} → String → A → (String → A) → String → A
at name a f n = if name == n then a else f n

-- An enum that is there is left as it is.
abbrev pub keep_or : List String → Option (List String) → Option (List String)
keep_or values none = some values
keep_or values (some there) = some there

abbrev pub on_table : String → Option Index → Option Index
on_table name none = none
on_table name (some i) = if i.table == name then none else some i

abbrev pub with_column : Column → Option Table → Option Table
with_column c none = none
with_column c (some t) = some (record t { columns = t.columns ++ (c ∷ []) })

abbrev pub without_column : String → Option Table → Option Table
without_column name none = none
without_column name (some t) =
    some (record t { columns = filter (λ c. not (c.name == name)) t.columns })

-- The effect of a call. A table takes its indexes with it.
abbrev pub effect : Operation → View → View
effect (create_enum name values) v = record v {
  enums = at name (keep_or values (v.enums name)) v.enums;
}
effect (drop_enum name) v = record v { enums = at name none v.enums }
effect (create_table t) v = record v { tables = at t.name (some t) v.tables }
effect (drop_table name) v = record v {
  tables = at name none v.tables;
  indexes = λ n. on_table name (v.indexes n);
}
effect (create_index i) v = record v { indexes = at i.name (some i) v.indexes }
effect (drop_index name table) v = record v { indexes = at name none v.indexes }
effect (add_column table c) v = record v {
  tables = at table (with_column c (v.tables table)) v.tables;
}
effect (drop_column table column) v = record v {
  tables = at table (without_column column (v.tables table)) v.tables;
}

abbrev pub is_free {ℓ} : {A : Type ℓ} → Option A → Bool
is_free none = true
is_free (some a) = false

abbrev pub has_column : String → List Column → Bool
has_column name [] = false
has_column name (c ∷ cs) = if c.name == name then true else has_column name cs

abbrev pub lacks_column : String → Option Table → Bool
lacks_column name none = false
lacks_column name (some t) = not (has_column name t.columns)

abbrev pub with_it : String → Option Table → Bool
with_it name none = false
with_it name (some t) = has_column name t.columns

abbrev pub has_type : (String → Option (List String)) → ColumnType → Bool
has_type enums (named_enum name) = not (is_free (enums name))
has_type enums _ = true

abbrev pub is_enum : String → ColumnType → Bool
is_enum name (named_enum n) = n == name
is_enum name _ = false

abbrev pub has_columns : List String → Option Table → Bool
has_columns names none = false
has_columns [] (some t) = true
has_columns (n ∷ names) (some t) = has_column n t.columns && has_columns names (some t)

-- The enums that columns name are there.
abbrev pub has_enums : (String → Option (List String)) → List Column → Bool
has_enums enums [] = true
has_enums enums (c ∷ cs) = has_type enums c.type && has_enums enums cs

-- A table has a column of the enum.
abbrev pub uses_enum : String → List Column → Bool
uses_enum name [] = false
uses_enum name (c ∷ cs) = is_enum name c.type || uses_enum name cs

abbrev pub uses : String → Option Table → Bool
uses name none = false
uses name (some t) = uses_enum name t.columns

-- When a call is accepted.
abbrev pub Applies : Operation → View → Type 0
Applies (create_enum name values) v = Unit
Applies (drop_enum name) v = (n : String) → uses name (v.tables n) ≡ false
Applies (create_table t) v =
    (is_free (v.tables t.name) ≡ true) × (has_enums v.enums t.columns ≡ true)
Applies (drop_table name) v = is_free (v.tables name) ≡ false
Applies (create_index i) v =
    (is_free (v.indexes i.name) ≡ true) × (has_columns i.columns (v.tables i.table) ≡ true)
Applies (drop_index name table) v = is_free (v.indexes name) ≡ false
Applies (add_column table c) v = lacks_column c.name (v.tables table) ≡ true
Applies (drop_column table column) v = with_it column (v.tables table) ≡ true

pub record Catalogue : Type 1 where
  pub State : Type 0
  pub view : State → View
  pub apply : Operation → State → Result State
  pub apply_lem :
      (o : Operation) (s : State)
      → Applies o (view s)
      → (s' : State) × (apply o s ≡ ok s') × (view s' ≡ effect o (view s))

-- A catalogue that is what is seen of it, and takes every call.
abbrev pub memory : Catalogue
memory = record {
  State = View;
  view = λ v. v;
  apply = λ o v. ok (effect o v);
  apply_lem = λ o v h. (effect o v, refl, refl);
}

module _ (C : Catalogue) where
  open C use {State, apply}

  -- The calls of a revision, in one transaction.
  unfoldable pub run : List Operation → State → Result State
  run [] s = ok s
  run (o ∷ os) s = do s' ← apply o s; run os s'
