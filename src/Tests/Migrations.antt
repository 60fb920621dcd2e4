-- ===== src/Tests/Migrations.antt =====
-- The migrations on a catalogue with one other table.
use taskpilot_assessment.Prelude.{
  String, ◌≡◌, refl, none, some, [], ◌∷◌, ◌++◌, take, true, arith, ◌==◌, string_eq, if◌then◌else◌,
}
use taskpilot_assessment.Errors.{ok, err}
use taskpilot_assessment.Migrations.{upgrade_0001, upgrade_0002, downgrade_0001, downgrade_0002}
use taskpilot_assessment.Migrations.Schema.{Table}
use taskpilot_assessment.Migrations.Catalogue.{View, memory, run}
use taskpilot_assessment.Migrations.Env.{
  Versioned, alembic, versions, revision_0001, upgrade_each, run_async_migrations,
}
use taskpilot_assessment.Migrations.Env.Laws.{base, run_async_migrations_lem}
use taskpilot_assessment.Migrations.Laws.{IsFresh, IsMigrated, upgrade_lem, downgrade_lem}

abbrev users : Table
users = record { name = "users"; columns = []; checks = []; primary_key = [] }

abbrev before : View
before = record {
  enums = λ n. none;
  tables = λ n. if "users" == n then some users else none;
  indexes = λ n. none;
}

before-IsFresh : IsFresh before
before-IsFresh = record {
  no_enum = refl;
  no_table = refl;
  no_index = refl;
  no_key = refl;
  unused = λ n. ground arith;
  no_indexes = λ n i h. ground arith;
}

upgrade_lem_example :
    (after : View) × (run memory (upgrade_0001 ++ upgrade_0002) before ≡ ok after)
    × IsMigrated memory before after
upgrade_lem_example = upgrade_lem memory before before-IsFresh

downgrade_lem_example :
    (after : View) × (run memory
        (upgrade_0001 ++ upgrade_0002 ++ downgrade_0002 ++ downgrade_0001)
        before
      ≡ ok after)
    × ((n : String) → after.tables n ≡ before.tables n)
    × ((n : String) → after.enums n ≡ before.enums n)
    × ((n : String) → after.indexes n ≡ before.indexes n)
downgrade_lem_example = downgrade_lem memory before before-IsFresh

-- A database that an earlier deployment brought to the first revision.
abbrev halfway : Versioned View
halfway = elim (upgrade_each memory (revision_0001 ∷ []) (base memory before)) [
  | ok d ↦ d
  | err e ↦ base memory before
]

deployed : upgrade_each memory (take 1 versions) (base memory before) ≡ ok halfway
unfolding upgrade_each run upgrade_0001
deployed = refl

run_async_migrations_lem_example :
    (d' : Versioned View) × (run_async_migrations memory (alembic memory) (ok tt) versions halfway
      ≡ record { result = ok tt; database = d'; disposed = true })
    × (d'.version ≡ some "0002")
    × IsMigrated memory before d'.catalogue
run_async_migrations_lem_example =
    run_async_migrations_lem memory (alembic memory) before 1 halfway before-IsFresh deployed
