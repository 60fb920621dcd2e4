-- ===== src/System/Lifetime.antt =====
-- What a transaction of the program never does to a row.
use taskpilot_assessment.Prelude.{
  ℕ, ◌≡◌, ◌≢◌, ◌⊎◌, Option, none, some, arith, nat_eq, ◌∙◌, inl, inr,
}
use taskpilot_assessment.Config.{Settings}
use taskpilot_assessment.Models.{Task, succeeded, dead}
use taskpilot_assessment.StateMachine.{can_transition}
use taskpilot_assessment.Database.{Database, World, SameIdentity}
use taskpilot_assessment.Worker.Reclaim.{stalled}
use taskpilot_assessment.Worker.Failure.Laws.{failed_task_facts}
use taskpilot_assessment.System.{System, Step, Run}
use taskpilot_assessment.System.Bounds.{WithinBounds}
use taskpilot_assessment.System.Rows.{
  Write, updated, claimed, reclaimed, recorded, RowChange, kept, inserted, deleted, wrote,
  Step-RowChange,
}
use taskpilot_assessment.System.Invariant.{start, Run-IsSound}

module _ {S : Type 0} (s : Settings) (c : System S) where
  Write-SameIdentity : (t u : Task) → Write s c t u → SameIdentity t u
  Write-SameIdentity t u (updated now target allowed e) = ground arith
  Write-SameIdentity t u (claimed now waits e) = ground arith
  Write-SameIdentity t u (reclaimed now run e) =
      ground (arith, failed_task_facts s now.app t stalled)
  Write-SameIdentity t u (recorded now i l r holds same e) = ground arith

  RowChange-SameIdentity :
      (j : ℕ) (o o' : Option Task) (t u : Task)
      → RowChange s c j o o'
      → o ≡ some t
      → o' ≡ some u
      → SameIdentity t u
  RowChange-SameIdentity j o o' t u (kept e) h h' = ground arith
  RowChange-SameIdentity j o o' t u (inserted now raw body valid e e') h h' = ground arith
  RowChange-SameIdentity j o o' t u (deleted e) h h' = ground arith
  RowChange-SameIdentity j o o' t u (wrote v v' e e' w) h h' =
      let same = Write-SameIdentity v v' w in ground arith

  -- A terminal row is written only with what a session holds.
  Write-terminal :
      (t u : Task)
      → (t.status ≡ succeeded) ⊎ (t.status ≡ dead)
      → ((i : ℕ) (l : Task) → c.held i ≡ some l → l.id ≢ t.id)
      → ¬ Write s c t u
  unfolding can_transition
  Write-terminal t u over free (updated now target allowed e) = ground arith
  Write-terminal t u over free (claimed now waits e) = ground arith
  Write-terminal t u over free (reclaimed now run e) = ground arith
  Write-terminal t u over free (recorded now i l r holds same e) = free i l holds same

  RowChange-terminal :
      (j : ℕ) (o o' : Option Task) (t : Task)
      → RowChange s c j o o'
      → o ≡ some t
      → (t.status ≡ succeeded) ⊎ (t.status ≡ dead)
      → ((i : ℕ) (l : Task) → c.held i ≡ some l → l.id ≢ t.id)
      → (o' ≡ some t) ⊎ (o' ≡ none)
  RowChange-terminal j o o' t (kept e) h over free = inl (e ∙ h)
  RowChange-terminal j o o' t (inserted now raw body valid e e') h over free = ground arith
  RowChange-terminal j o o' t (deleted e) h over free = inr e
  RowChange-terminal j o o' t (wrote v u e e' w) h over free =
      let same : v ≡ t = ground arith in absurd (Write-terminal t u over free (rw same at w))

module _ (D : Database) (s : Settings) where
  open D use {Db, find}

  abbrev AllWithin : World Db → Type 0
  AllWithin w = (i : ℕ) (u : Task) → find i w.db ≡ some u → WithinBounds s u

  -- On a table that the program has led to from one whose rows are within their bounds, no transaction
  -- changes the id, the title, the payload, the key or the creation time of a row that is there before
  -- and after it.
  Step-SameIdentity :
      (w : World Db) (c c' : System Db) (j : ℕ) (t u : Task)
      → AllWithin w
      → Run D s (start D s w) c
      → Step D s c c'
      → find j c.world.db ≡ some t
      → find j c'.world.db ≡ some u
      → SameIdentity t u
  Step-SameIdentity w c c' j t u first r st before after =
      let x = Run-IsSound D s w c first r in
      RowChange-SameIdentity s c j (find j c.world.db) (find j c'.world.db) t u
        (Step-RowChange D s c c' j (λ i l holds. (x.held i l holds).0) st) before after

  -- On a table that the program has led to from one whose rows are within their bounds, a task that
  -- has succeeded or is dead, and that no session holds from an earlier reading, stays exactly as it
  -- is through any transaction, unless that deletes it.
  pub Step-terminal :
      (w : World Db) (c c' : System Db) (j : ℕ) (t : Task)
      → AllWithin w
      → Run D s (start D s w) c
      → Step D s c c'
      → find j c.world.db ≡ some t
      → (t.status ≡ succeeded) ⊎ (t.status ≡ dead)
      → ((i : ℕ) (l : Task) → c.held i ≡ some l → l.id ≢ t.id)
      → (find j c'.world.db ≡ some t) ⊎ (find j c'.world.db ≡ none)
  Step-terminal w c c' j t first r st before over free =
      let x = Run-IsSound D s w c first r in
      RowChange-terminal s c j (find j c.world.db) (find j c'.world.db) t
        (Step-RowChange D s c c' j (λ i l holds. (x.held i l holds).0) st) before over free
