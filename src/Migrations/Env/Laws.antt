-- ===== src/Migrations/Env/Laws.antt =====
-- Where `alembic upgrade head` ends, from wherever it starts.
use taskpilot_assessment.Prelude.{
  ℕ, zero, suc, ◌≡◌, refl, ◌∙◌, some, none, List, [], ◌∷◌, ◌++◌, arith, take, inl, inr, true,
}
use taskpilot_assessment.Errors.{ok, ◌>>=◌, Result-cases}
use taskpilot_assessment.Migrations.Schema.{Operation}
use taskpilot_assessment.Migrations.Catalogue.{Catalogue, run}
use taskpilot_assessment.Migrations.{upgrade_0001, upgrade_0002}
use taskpilot_assessment.Migrations.Laws.{IsFresh, IsMigrated, upgrade_lem}
use taskpilot_assessment.Migrations.Env.{
  Revision, Versioned, Context, versions, upgrade_each, run_async_migrations, IsLinear, plan,
}

versions-IsLinear : IsLinear versions
versions-IsLinear = (refl, (refl, tt))

take_none : (n : ℕ) → take {A = Revision} n [] ≡ []
take_none zero = refl
take_none (suc n) = refl

module _ (C : Catalogue) where
  open C use {State, view}

  -- The calls of two revisions are those of the first and then those of the second.
  run-append :
      (os ps : List Operation) (s : State) → run C (os ++ ps) s ≡ (do s' ← run C os s; run C ps s')
  unfolding run
  run-append [] ps s = refl
  run-append (o ∷ os) ps s = elim (Result-cases (C.apply o s)) [
    | inl (s', e) ↦ rw e (run-append os ps s')
    | inr (x, e) ↦ rw e refl
  ]

  -- A database of which nothing has been migrated yet.
  abbrev pub base : State → Versioned State
  base s = record { catalogue = s; version = none }

  both_stages :
      (s : State)
      → IsFresh (view s)
      → (s₁ s₂ : State) × (run C upgrade_0001 s ≡ ok s₁)
        × (run C upgrade_0002 s₁ ≡ ok s₂)
        × IsMigrated C s s₂
  both_stages s fresh =
      let (s₂, ran, m) = upgrade_lem C s fresh in
      let split = run-append upgrade_0001 upgrade_0002 s in
      elim (Result-cases (run C upgrade_0001 s)) [
        | inl (s₁, e) ↦ (s₁, s₂, e, ground arith, m)
        | inr (x, e) ↦ ground arith
      ]

  -- After the first revisions, the others lead to the end.
  last_stage :
      (s s₁ s₂ : State) (done : ℕ) (d : Versioned State)
      → run C upgrade_0001 s ≡ ok s₁
      → run C upgrade_0002 s₁ ≡ ok s₂
      → upgrade_each C (take done versions) (base s) ≡ ok d
      → upgrade_each C (plan 2 versions d.version) d
        ≡ ok (record { catalogue = s₂; version = some "0002" })
  unfolding upgrade_each
  last_stage s s₁ s₂ zero d first second e =
      let d' : d ≡ base s = ground arith in rw (d', first, second) refl
  last_stage s s₁ s₂ (suc zero) d first second e =
      let d' : d ≡ record { catalogue = s₁; version = some "0001" } = ground (arith, first) in
      rw (d', second) refl
  last_stage s s₁ s₂ (suc (suc n)) d first second e =
      let d' : d ≡ record { catalogue = s₂; version = some "0002" } =
        ground (arith, first, second, take_none n) in
      rw d' refl

  -- What the script comes to when the revisions that it plans to run are accepted.
  script_ends :
      (context : Context C) (d d' : Versioned State)
      → upgrade_each C (plan 2 versions d.version) d ≡ ok d'
      → run_async_migrations C context (ok tt) versions d
        ≡ record { result = ok tt; database = d'; disposed = true }
  unfolding run_async_migrations
  script_ends context d d' e =
      let ran : context.run_migrations versions d ≡ ok d' =
        context.run_migrations_lem versions d versions-IsLinear ∙ e in
      rw ran refl

  -- On a database where the names are free and nothing refers to them, whichever of the revisions earlier
  -- runs have brought it to, the script succeeds once it is connected, and disposes of the engine:
  -- the version is the last one and the schema is that of app/models.py, the same as from the beginning.
  pub run_async_migrations_lem :
      (context : Context C) (s : State) (done : ℕ) (d : Versioned State)
      → IsFresh (view s)
      → upgrade_each C (take done versions) (base s) ≡ ok d
      → (d' : Versioned State) × (run_async_migrations C context (ok tt) versions d
          ≡ record { result = ok tt; database = d'; disposed = true })
        × (d'.version ≡ some "0002")
        × IsMigrated C s d'.catalogue
  unfolding run_async_migrations upgrade_each
  run_async_migrations_lem context s done d fresh e =
      let (s₁, s₂, first, second, m) = both_stages s fresh in
      let ends = script_ends context d _ (last_stage s s₁ s₂ done d first second e) in
      (record { catalogue = s₂; version = some "0002" }, ends, refl, m)
