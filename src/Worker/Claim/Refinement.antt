-- ===== src/Worker/Claim/Refinement.antt =====
-- The claim as one transaction, and as the two events of the cluster.
use taskpilot_assessment.Prelude.{
  ℕ, suc, ◌≡◌, refl, List, [], arith, nat_eq, nat_beq_iff, if◌then◌else◌,
}
use taskpilot_assessment.Errors.{ok, Result-cases}
use taskpilot_assessment.Models.{Task}
use taskpilot_assessment.Database.{Database, Clock, has_id}
use taskpilot_assessment.Database.Changes.{commit_changes}
use taskpilot_assessment.Worker.Claim.{claim_each, due_tasks, claimed, claim_due_tasks}
use taskpilot_assessment.Worker.Claim.Laws.{has_id-claimed}
use taskpilot_assessment.Worker.Claim.Cluster.{
  Cluster, select, commit, Run, here, next, hold, lock, unlock, tally,
}

module _ (D : Database) where
  open D use {Db}

  -- What `claim_due_tasks` does for a worker that holds nothing is a selection and its commit, two steps
  -- of the cluster, by which each task that it returns is claimed once more and no other task.
  claim_due_tasks-Run :
      (c : Cluster Db) (i : ℕ) (now : Clock) (limit : ℕ) (ts : List Task) (d' : Db)
      → c.holding i ≡ []
      → claim_due_tasks D now limit c.locked c.db ≡ ok (ts, d')
      → (e : Cluster Db) × Run D c e
        × (e.db ≡ d')
        × ((j : ℕ) → e.claims j ≡ (if has_id j ts then suc (c.claims j) else c.claims j))
  unfolding claim_due_tasks
  claim_due_tasks-Run c i now limit ts d' idle claims =
      let us = due_tasks D now.app limit c.locked c.db in
      let held : hold i us c.holding i ≡ us = ground (arith, nat_beq_iff i i) in
      let committed : commit_changes D now.db (claim_each us) c.db ≡ ok d' =
        ground (arith, claims, Result-cases (commit_changes D now.db (claim_each us) c.db)) in
      let same : ts ≡ claimed us =
        ground (arith, claims, Result-cases (commit_changes D now.db (claim_each us) c.db)) in
      let c₁ : Cluster Db = record c { locked = lock us c.locked; holding = hold i us c.holding } in
      let e : Cluster Db = record c₁ {
        db = d';
        locked = unlock (c₁.holding i) c₁.locked;
        holding = hold i [] c₁.holding;
        claims = tally (c₁.holding i) c.claims;
      } in
      (
        e,
        next (next here (select i now.app limit idle)) (commit i now.db d' (rw held committed)),
        refl,
        λ j. rw (held, same, has_id-claimed) refl,
      )
