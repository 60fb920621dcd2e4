-- ===== src/Migrations/Laws.antt =====
-- What the migrations lead to, and back.
use taskpilot_assessment.Prelude.{
  String, true, false, ◌≡◌, refl, none, some, List, [], ◌∷◌, ◌++◌, arith, All, Bool-cases,
  Option-cases, inl, inr, ◌==◌, string_eq, eq_iff, if◌then◌else◌,
}
use taskpilot_assessment.Errors.{ok}
use taskpilot_assessment.Migrations.Schema.{Index, Table, Operation, agrees}
use taskpilot_assessment.Migrations.Catalogue.{View, Catalogue, Applies, effect, run, uses}
use taskpilot_assessment.Migrations.{
  upgrade_0001, upgrade_0002, downgrade_0001, downgrade_0002, initial_table, idempotency_key,
  model_table, model_indexes, model_statuses,
}

-- The view after some calls.
abbrev effects : List Operation → View → View
effects [] v = v
effects (o ∷ os) v = effects os (effect o v)

-- Each call is accepted when its turn comes.
abbrev AllApply : List Operation → View → Type 0
AllApply [] v = Unit
AllApply (o ∷ os) v = Applies o v × AllApply os (effect o v)

module _ (C : Catalogue) where
  open C use {State, view, apply, apply_lem}

  run_lem :
      (os : List Operation) (s : State) (v : View)
      → view s ≡ v
      → AllApply os v
      → (s' : State) × (run C os s ≡ ok s') × (view s' ≡ effects os v)
  unfolding run
  run_lem [] s v e a = (s, refl, e)
  run_lem (o ∷ os) s v e (h, a) =
      let (s₁, applied, seen) = apply_lem o s (rw e h) in
      let (s₂, ran, seen') = run_lem os s₁ (effect o v) (rw (seen, e) refl) a in
      (s₂, rw applied ran, seen')

-- The names that the migrations take are free, and no column or index refers to them.
pub record IsFresh (v : View) : Type 0 where
  pub no_enum : v.enums "task_status" ≡ none
  pub no_table : v.tables "tasks" ≡ none
  pub no_index : v.indexes "ix_tasks_status_scheduled_at" ≡ none
  pub no_key : v.indexes "uq_tasks_idempotency_key" ≡ none
  pub unused : (n : String) → uses "task_status" (v.tables n) ≡ false
  pub no_indexes : (n : String) (i : Index) → v.indexes n ≡ some i → (i.table == "tasks") ≡ false

upgrade-AllApply : (v : View) → IsFresh v → AllApply (upgrade_0001 ++ upgrade_0002) v
unfolding upgrade_0001 upgrade_0002
upgrade-AllApply v x =
    rw (x.no_table, x.no_enum, x.no_index, x.no_key)
      (tt, ((refl, refl), ((refl, refl), (refl, ((refl, refl), tt)))))

-- The table after both upgrades.
abbrev pub migrated_table : Table
migrated_table = record initial_table { columns = initial_table.columns ++ (idempotency_key ∷ []) }

abbrev round_trip : List Operation
round_trip = upgrade_0001 ++ upgrade_0002 ++ downgrade_0002 ++ downgrade_0001

round_trip-AllApply : (v : View) → IsFresh v → AllApply round_trip v
unfolding upgrade_0001 upgrade_0002 downgrade_0001 downgrade_0002
round_trip-AllApply v x =
    rw (x.no_table, x.no_enum, x.no_index, x.no_key)
      (
        tt,
        (
          (refl, refl),
          (
            (refl, refl),
            (
              refl,
              (
                (refl, refl),
                (
                  refl,
                  (
                    refl,
                    (
                      refl,
                      (
                        refl,
                        (
                          (λ n. elim (Bool-cases ("tasks" == n)) [
                            | inl h ↦ rw h refl
                            | inr h ↦ rw h (x.unused n)
                          ]),
                          tt,
                        ),
                      ),
                    ),
                  ),
                ),
              ),
            ),
          ),
        ),
      )

round_trip-tables :
    (v : View) (n : String) → IsFresh v → (effects round_trip v).tables n ≡ v.tables n
unfolding upgrade_0001 upgrade_0002 downgrade_0001 downgrade_0002
round_trip-tables v n x = ground (arith, eq_iff "tasks" n, x.no_table)

round_trip-enums : (v : View) (n : String) → IsFresh v → (effects round_trip v).enums n ≡ v.enums n
unfolding upgrade_0001 upgrade_0002 downgrade_0001 downgrade_0002
round_trip-enums v n x = ground (arith, eq_iff "task_status" n, x.no_enum)

round_trip-indexes :
    (v : View) (n : String) → IsFresh v → (effects round_trip v).indexes n ≡ v.indexes n
unfolding upgrade_0001 upgrade_0002 downgrade_0001 downgrade_0002
round_trip-indexes v n x = elim (Option-cases (v.indexes n)) [
  | inl free ↦ ground arith
  | inr (i, there) ↦ ground (
    arith,
    x.no_indexes n i there,
    eq_iff "ix_tasks_status_scheduled_at" n,
    eq_iff "uq_tasks_idempotency_key" n,
    x.no_index,
    x.no_key,
  )
]

module _ (C : Catalogue) where
  open C use {State, view}

  pub record IsMigrated (s s' : State) : Type 0 where
    pub tables :
        (n : String)
        → (view s').tables n ≡ (if "tasks" == n then some migrated_table else (view s).tables n)
    pub columns : agrees migrated_table model_table ≡ true
    pub checks : migrated_table.checks ≡ model_table.checks
    pub primary_key : migrated_table.primary_key ≡ model_table.primary_key
    pub enums :
        (n : String)
        → (view s').enums n ≡ (if "task_status" == n then some model_statuses else (view s).enums n)
    pub indexes : All (λ i. (view s').indexes i.name ≡ some i) model_indexes

  -- On a database where the names are free and nothing refers to them, both upgrades are accepted. Afterwards the table `tasks` has the
  -- columns, checks and key that app/models.py declares, the columns up to their order and server defaults,
  -- the enum has the names of the statuses, and both indexes are as declared; no other table and no other
  -- enum has changed.
  pub upgrade_lem :
      (s : State)
      → IsFresh (view s)
      → (s' : State) × (run C (upgrade_0001 ++ upgrade_0002) s ≡ ok s') × IsMigrated s s'
  unfolding upgrade_0001 upgrade_0002
  upgrade_lem s x =
      let (s', ran, seen) =
        run_lem C (upgrade_0001 ++ upgrade_0002) s (view s) refl (upgrade-AllApply (view s) x) in
      (
        s',
        ran,
        record {
          tables = λ n. rw seen (ground (arith, eq_iff "tasks" n));
          columns = refl;
          checks = refl;
          primary_key = refl;
          enums = λ n. rw (seen, x.no_enum) refl;
          indexes = rw seen (refl, (refl, tt));
        },
      )

  -- On a database where the names are free and nothing refers to them, both upgrades and then both downgrades are accepted, and under
  -- every name the database has what it had.
  pub downgrade_lem :
      (s : State)
      → IsFresh (view s)
      → (s' : State) × (run C (upgrade_0001 ++ upgrade_0002 ++ downgrade_0002 ++ downgrade_0001) s
          ≡ ok s')
        × ((n : String) → (view s').tables n ≡ (view s).tables n)
        × ((n : String) → (view s').enums n ≡ (view s).enums n)
        × ((n : String) → (view s').indexes n ≡ (view s).indexes n)
  downgrade_lem s x =
      let (s', ran, seen) = run_lem C round_trip s (view s) refl (round_trip-AllApply (view s) x) in
      (
        s',
        ran,
        λ n. rw seen (round_trip-tables (view s) n x),
        λ n. rw seen (round_trip-enums (view s) n x),
        λ n. rw seen (round_trip-indexes (view s) n x),
      )
