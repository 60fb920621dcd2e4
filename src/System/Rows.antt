-- ===== src/System/Rows.antt =====
-- What one transaction of the program may do to one row.
use taskpilot_assessment.Prelude.{
  ℕ, ◌≤◌, ◌≡◌, ◌≢◌, sym, refl, Bool, true, Option, none, some, List, arith, ◌==◌, nat_eq,
  nat_beq_iff, Bool-cases, Option-cases, inl, inr,
}
use taskpilot_assessment.Errors.{Result, ok, Result-cases}
use taskpilot_assessment.Config.{Settings}
use taskpilot_assessment.Models.{Task, TaskStatus, pending, running, status_eq, status_beq_iff}
use taskpilot_assessment.StateMachine.{can_transition}
use taskpilot_assessment.Schemas.{TaskCreate, TaskCreateFields, validate_create}
use taskpilot_assessment.Database.{Database, Clock, World, merge, has_id}
use taskpilot_assessment.Database.Changes.{touch}
use taskpilot_assessment.Service.{new_task, commit_new, update_status, delete_task}
use taskpilot_assessment.Service.Status.{update_status_applies, update_status_refuses}
use taskpilot_assessment.Service.Queries.{delete_task_lem}
use taskpilot_assessment.Time.{seconds}
use taskpilot_assessment.Worker.Failure.Laws.{Fits}
use taskpilot_assessment.Worker.Reclaim.{reclaim_stale_running}
use taskpilot_assessment.Worker.Reclaim.Laws.{reclaimed_row, reclaim_stale_running_lem}
use taskpilot_assessment.Worker.Claim.{claim_due_tasks}
use taskpilot_assessment.Worker.Claim.Laws.{run_row, claim_due_tasks_lem}
use taskpilot_assessment.Worker.Process.{record_outcome}
use taskpilot_assessment.Worker.Process.Laws.{
  outcome_task, record_outcome_lem, record_outcome_missing,
}
use taskpilot_assessment.System.{
  System, Step, create, update, remove, reclaim, claim, begin, finish, lose,
}

-- The row `u` that an UPDATE of the program may leave where `t` was.
pub data Write {S : Type 0} (s : Settings) (c : System S) (t u : Task) : Type 0 where
  -- PATCH
  updated :
      (now : ℕ) (target : TaskStatus)
      → can_transition t.status target ≡ true
      → u ≡ touch now (record t { status = target })
      → Write s c t u
  claimed : (now : ℕ) → t.status ≡ pending → u ≡ run_row now t → Write s c t u
  reclaimed : (now : Clock) → t.status ≡ running → u ≡ reclaimed_row s now t → Write s c t u
  -- the outcome of a run of the object that a session holds, over whatever the row is by now
  recorded :
      (now : Clock) (i : ℕ) (l : Task) (r : Result (Unit {0}))
      → c.held i ≡ some l
      → l.id ≡ t.id
      → u ≡ merge now.db l (outcome_task s now.app l r) t
      → Write s c t u

-- What the primary key `j` reads before a transaction, and after it.
pub data RowChange {S : Type 0} (s : Settings) (c : System S) (j : ℕ) (o o' : Option Task)
    : Type 0 where
  kept : o' ≡ o → RowChange s c j o o'
  inserted :
      (now : ℕ) (raw : TaskCreateFields) (body : TaskCreate)
      → validate_create s raw ≡ ok body
      → o ≡ none
      → o' ≡ some (new_task now j body)
      → RowChange s c j o o'
  deleted : o' ≡ none → RowChange s c j o o'
  wrote : (t u : Task) → o ≡ some t → o' ≡ some u → Write s c t u → RowChange s c j o o'

module _ (D : Database) (s : Settings) where
  open D use {Db, find, find-id, insert, insert_stores}

  create-RowChange :
      (c : System Db) (now : Clock) (id : ℕ) (raw : TaskCreateFields) (body : TaskCreate)
      (r : Result Task) (w : World Db) (j : ℕ)
      → validate_create s raw ≡ ok body
      → find id c.world.db ≡ none
      → commit_new D now id body c.world ≡ (r, w)
      → RowChange s c j (find j c.world.db) (find j w.db)
  unfolding commit_new
  create-RowChange c now id raw body r w j valid fresh e =
      elim (Result-cases (insert (new_task now.db id body) c.world.db)) [
        | inl (d', stored) ↦
            let rows = insert_stores (new_task now.db id body) c.world.db d' stored in
            let same : w.db ≡ d' = ground arith in
            elim (Bool-cases (id == j)) [
              | inl h ↦
                  let i : id ≡ j = (nat_beq_iff id j).0 h in
                  inserted now.db raw body valid (ground arith) (ground (arith, rows j))
              | inr h ↦ kept (ground (arith, rows j))
            ]
        | inr (x, raised) ↦ kept (ground arith)
      ]

  update-RowChange :
      (c : System Db) (now : Clock) (id : ℕ) (target : TaskStatus) (r : Result Task) (w : World Db)
      (j : ℕ)
      → update_status D now id target c.world ≡ (r, w)
      → RowChange s c j (find j c.world.db) (find j w.db)
  update-RowChange c now id target r w j e =
      let (missing, already, refused) = update_status_refuses D now id target c.world in
      elim (Option-cases (find id c.world.db)) [
        | inl h ↦ kept (ground (arith, missing h))
        | inr (t, found) ↦ elim (Bool-cases (t.status == target)) [
          | inl h ↦ kept (ground (arith, already t found, status_beq_iff t.status target))
          | inr new ↦ elim (Bool-cases (can_transition t.status target)) [
            | inr no' ↦ kept (ground (arith, refused t found, status_beq_iff t.status target))
            | inl allowed ↦
                let changes : t.status ≢ target = ground (arith, status_beq_iff t.status target) in
                let (d', e', rows) =
                  update_status_applies D now id target c.world t found changes allowed in
                let same : w.db ≡ d' = ground arith in
                elim (Bool-cases (id == j)) [
                  | inl h ↦
                      wrote t (touch now.db (record t { status = target }))
                        (ground (arith, nat_beq_iff id j)) (ground (arith, rows j))
                        (updated now.db target allowed refl)
                  | inr h ↦ kept (ground (arith, rows j))
                ]
          ]
        ]
      ]

  remove-RowChange :
      (c : System Db) (id : ℕ) (r : Result (Unit {0})) (w : World Db) (j : ℕ)
      → delete_task D id c.world ≡ (r, w)
      → RowChange s c j (find j c.world.db) (find j w.db)
  remove-RowChange c id r w j e =
      let (missing, there) = delete_task_lem D id c.world in
      elim (Option-cases (find id c.world.db)) [
        | inl h ↦ kept (ground (arith, missing h))
        | inr (t, found) ↦
            let (w', e', _, _, rows) = there t found in
            let same : w ≡ w' = ground arith in
            elim (Bool-cases (id == j)) [
              | inl h ↦ deleted (ground (arith, rows j))
              | inr h ↦ kept (ground (arith, rows j))
            ]
      ]

  reclaim-RowChange :
      (c : System Db) (now : Clock) (locked : ℕ → Bool) (r : Result ℕ) (w : World Db) (j : ℕ)
      → seconds s.running_task_timeout_seconds ≤ now.app
      → Fits s now.app
      → reclaim_stale_running D s now locked c.world ≡ (r, w)
      → RowChange s c j (find j c.world.db) (find j w.db)
  reclaim-RowChange c now locked r w j past fits e =
      let (ts, w', e', facts) = reclaim_stale_running_lem D s now locked c.world past fits in
      let same : w ≡ w' = ground arith in
      elim (Bool-cases (has_id j ts)) [
        | inl h ↦
            let (t, found, run, old, free, row) = facts.taken j h in
            wrote t (reclaimed_row s now t) found (rw same row) (reclaimed now run refl)
        | inr h ↦ kept (rw same (facts.others j h))
      ]

  claim-RowChange :
      (c : System Db) (now : Clock) (limit : ℕ) (locked : ℕ → Bool) (ts : List Task) (d : Db)
      (j : ℕ)
      → claim_due_tasks D now limit locked c.world.db ≡ ok (ts, d)
      → RowChange s c j (find j c.world.db) (find j d)
  claim-RowChange c now limit locked ts d j e =
      let (us, d', e', facts) = claim_due_tasks_lem D now limit locked c.world.db in
      let same : d ≡ d' = ground arith in
      elim (Bool-cases (has_id j us)) [
        | inl h ↦
            let (t, found, waits, due, free, row) = facts.taken j h in
            wrote t (run_row now.db t) found (rw same row) (claimed now.db waits refl)
        | inr h ↦ kept (rw same (facts.others j h))
      ]

  finish-RowChange :
      (c : System Db) (i : ℕ) (now : Clock) (t : Task) (r r' : Result (Unit {0})) (w : World Db)
      (j : ℕ)
      → c.held i ≡ some t
      → t.status ≡ running
      → Fits s now.app
      → record_outcome D s now t t.id r c.world ≡ (r', w)
      → RowChange s c j (find j c.world.db) (find j w.db)
  finish-RowChange c i now t r r' w j holds run fits e =
      elim (Option-cases (find t.id c.world.db)) [
        | inl gone ↦
            let (m, e') = record_outcome_missing D s now t r c.world fits run gone in
            kept (ground arith)
        | inr (row, found) ↦
            let (d', e', rows) = record_outcome_lem D s now t row r c.world fits run found in
            let same : w.db ≡ d' = ground arith in
            elim (Bool-cases (t.id == j)) [
              | inl h ↦
                  wrote row (merge now.db t (outcome_task s now.app t r) row)
                    (ground (arith, nat_beq_iff t.id j)) (ground (arith, rows j))
                    (recorded now i t r holds (sym (find-id t.id c.world.db row found)) refl)
              | inr h ↦ kept (ground (arith, rows j))
            ]
      ]

  -- One transaction of the program, whichever it is, when the sessions hold only tasks that they read
  -- running: the row of an id is left alone, inserted as a new task of a request that the validators
  -- accept, deleted, or written in one of the four ways of `Write`: an allowed transition, a claim of
  -- a pending task, a reclaim of a running one, or the outcome of a run that a session holds.
  pub Step-RowChange :
      (c c' : System Db) (j : ℕ)
      → ((i : ℕ) (t : Task) → c.held i ≡ some t → t.status ≡ running)
      → Step D s c c'
      → RowChange s c j (find j c.world.db) (find j c'.world.db)
  Step-RowChange c c' j run (create now id raw body r w valid fresh e same) =
      rw same (create-RowChange c now id raw body r w j valid fresh e)
  Step-RowChange c c' j run (update now id target r w e same) =
      rw same (update-RowChange c now id target r w j e)
  Step-RowChange c c' j run (remove id r w e same) = rw same (remove-RowChange c id r w j e)
  Step-RowChange c c' j run (reclaim now locked r w past fits e same) =
      rw same (reclaim-RowChange c now locked r w j past fits e)
  Step-RowChange c c' j run (claim now limit locked ts d e same) =
      rw same (claim-RowChange c now limit locked ts d j e)
  Step-RowChange c c' j run (begin i id same) = kept (rw same refl)
  Step-RowChange c c' j run (finish i now t r r' w holds fits e same) =
      rw same (finish-RowChange c i now t r r' w j holds (run i t holds) fits e)
  Step-RowChange c c' j run (lose i same) = kept (rw same refl)
