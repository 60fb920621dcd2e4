-- ===== src/Migrations/Env.antt =====
-- alembic/env.py for `alembic upgrade head`, and the identifiers of the two revisions. Alembic is not part
-- of the repository: which revisions `context.run_migrations` runs is a law. The rendering of SQL in
-- offline mode is left out.
pub mod Laws
use taskpilot_assessment.Prelude.{
  ℕ, zero, suc, ◌≡◌, refl, String, Bool, true, false, ◌||◌, Option, none, some, List, [], ◌∷◌,
  length, ◌==◌, if◌then◌else◌,
}
use taskpilot_assessment.Errors.{Result, ok, err, ◌>>=◌}
use taskpilot_assessment.Models.{option_eq}
use taskpilot_assessment.Migrations.Schema.{Operation}
use taskpilot_assessment.Migrations.Catalogue.{Catalogue, run}
use taskpilot_assessment.Migrations.{upgrade_0001, downgrade_0001, upgrade_0002, downgrade_0002}

-- A file of alembic/versions.
pub record Revision : Type 0 where
  pub revision : String
  pub down_revision : Option String
  pub upgrade : List Operation
  pub downgrade : List Operation

abbrev pub revision_0001 : Revision
revision_0001 = record {
  revision = "0001";
  down_revision = none;
  upgrade = upgrade_0001;
  downgrade = downgrade_0001;
}

abbrev pub revision_0002 : Revision
revision_0002 = record {
  revision = "0002";
  down_revision = some "0001";
  upgrade = upgrade_0002;
  downgrade = downgrade_0002;
}

abbrev pub versions : List Revision
versions = revision_0001 ∷ revision_0002 ∷ []

-- A database, with what its table `alembic_version` says.
pub record Versioned (S : Type 0) : Type 0 where
  pub catalogue : S
  pub version : Option String

-- The revision that comes after a version.
abbrev pub next_revision : Option String → List Revision → Option Revision
next_revision v [] = none
next_revision v (r ∷ rs) = if r.down_revision == v then some r else next_revision v rs

-- The revisions from a version to the head, not more of them than `n`.
abbrev pub plan : (n : ℕ) → List Revision → Option String → List Revision
plan zero rs v = []
plan (suc n) rs v = elim (next_revision v rs) [
  | none ↦ []
  | some r ↦ r ∷ plan n rs (some r.revision)
]

abbrev pub follows : Option String → List Revision → Bool
follows v [] = false
follows v (r ∷ rs) = r.down_revision == v || follows v rs

-- No two revisions come after the same version.
abbrev pub IsLinear : List Revision → Type 0
IsLinear [] = Unit
IsLinear (r ∷ rs) = (follows r.down_revision rs ≡ false) × IsLinear rs

module _ (C : Catalogue) where
  open C use {State}

  -- Each revision's calls, and its identifier as the version.
  unfoldable pub upgrade_each : List Revision → Versioned State → Result (Versioned State)
  upgrade_each [] d = ok d
  upgrade_each (r ∷ rs) d = do
    s ← run C r.upgrade d.catalogue
    upgrade_each rs (record { catalogue = s; version = some r.revision })

  pub record Context : Type 0 where
    -- `context.run_migrations()`
    pub run_migrations : List Revision → Versioned State → Result (Versioned State)
    pub run_migrations_lem :
        (rs : List Revision) (d : Versioned State)
        → IsLinear rs
        → run_migrations rs d ≡ upgrade_each (plan (length rs) rs d.version) d

  abbrev pub alembic : Context
  alembic = record {
    run_migrations = λ rs d. upgrade_each (plan (length rs) rs d.version) d;
    run_migrations_lem = λ rs d h. refl;
  }

  -- `with context.begin_transaction()`: PostgreSQL rolls back what changes the catalogue too.
  abbrev pub transaction :
      Versioned State → Result (Versioned State) → Result (Unit {0}) × Versioned State
  transaction d (ok d') = (ok tt, d')
  transaction d (err e) = (err e, d)

  -- What is left when the script ends: its exception if it raised, the database, and whether the
  -- engine has been disposed of.
  pub record Ended : Type 0 where
    pub result : Result (Unit {0})
    pub database : Versioned State
    pub disposed : Bool

  abbrev pub dispose : Result (Unit {0}) × Versioned State → Ended
  dispose (ok x, d) = record { result = ok x; database = d; disposed = true }
  dispose (err e, d) = record { result = err e; database = d; disposed = false }

  module _ (context : Context) where
    open context use {run_migrations}

    unfoldable pub do_run_migrations :
        List Revision → Versioned State → Result (Unit {0}) × Versioned State
    do_run_migrations rs d = transaction d (run_migrations rs d)

    -- `connected` is what the attempt to connect comes to.
    unfoldable pub run_async_migrations :
        (connected : Result (Unit {0})) → List Revision → Versioned State → Ended
    unfolding do_run_migrations
    run_async_migrations (err e) rs d = record { result = err e; database = d; disposed = false }
    run_async_migrations (ok _) rs d = dispose (do_run_migrations rs d)
