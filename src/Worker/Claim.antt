-- ===== src/Worker/Claim.antt =====
-- app/worker/processing.py: `claim_due_tasks`.
pub mod Laws
pub mod Cluster
pub mod Held
pub mod Exclusion
pub mod Progress
pub mod Refinement
use taskpilot_assessment.Prelude.{ℕ, Bool, ◌&&◌, List, [], ◌∷◌, leb, ◌==◌}
use taskpilot_assessment.Errors.{Result, ok, ◌>>=◌}
use taskpilot_assessment.Models.{Task, pending, running, status_eq}
use taskpilot_assessment.Database.{Database, Clock}
use taskpilot_assessment.Database.Changes.{Change, commit_changes}

-- The WHERE clause of the query.
abbrev pub is_due : ℕ → Task → Bool
is_due now t = t.status == pending && leb t.scheduled_at now

abbrev pub set_running : Task → Task
set_running t = record t { status = running }

-- The loop over the selected tasks.
abbrev pub claim_each : List Task → List Change
claim_each [] = []
claim_each (t ∷ ts) = (t, set_running t) ∷ claim_each ts

abbrev pub claimed : List Task → List Task
claimed [] = []
claimed (t ∷ ts) = set_running t ∷ claimed ts

module _ (D : Database) where
  open D use {Db, select_for_update}

  -- The tasks that the transaction selects and locks.
  unfoldable pub due_tasks : (now limit : ℕ) → (locked : ℕ → Bool) → Db → List Task
  due_tasks now limit locked d = select_for_update (is_due now) (λ t. t.scheduled_at) limit locked d

  -- The tasks as the objects stand after the commit, and the table.
  unfoldable pub claim_due_tasks :
      Clock → (limit : ℕ) → (locked : ℕ → Bool) → Db → Result (List Task × Db)
  claim_due_tasks now limit locked d =
      let tasks = due_tasks now.app limit locked d in
      do d' ← commit_changes D now.db (claim_each tasks) d; ok (claimed tasks, d')
