-- ===== src/System/Invariant.antt =====
-- What holds of every table that the program's transactions lead to.
use taskpilot_assessment.Prelude.{
  ℕ, ◌≡◌, Option, none, some, arith, ◌==◌, nat_eq, sym, ◌∙◌, Bool-cases, Option-cases, inl, inr,
}
use taskpilot_assessment.Config.{Settings}
use taskpilot_assessment.Models.{Task, running, status_eq, status_beq_iff, option_eq}
use taskpilot_assessment.Database.{Database, World}
use taskpilot_assessment.Worker.Reclaim.{stalled}
use taskpilot_assessment.Worker.Process.{begin_process}
use taskpilot_assessment.Worker.Process.Laws.{outcome_task, begin_process_lem}
use taskpilot_assessment.System.{
  System, Step, create, update, remove, reclaim, claim, begin, finish, lose, Run, here, next,
  holding,
}
use taskpilot_assessment.System.Bounds.{
  WithinBounds, failed_task-WithinBounds, outcome_task-WithinBounds, merge-WithinBounds,
  new_task-WithinBounds,
}
use taskpilot_assessment.System.Rows.{
  Write, updated, claimed, reclaimed, recorded, RowChange, kept, inserted, deleted, wrote,
  Step-RowChange,
}

module _ (D : Database) (s : Settings) where
  open D use {Db, find, session_get-none}

  -- Every row is within its bounds, and so is every object that a session holds, which was read running.
  pub record IsSound (c : System Db) : Type 0 where
    pub rows : (j : ℕ) (t : Task) → find j c.world.db ≡ some t → WithinBounds s t
    pub held : (i : ℕ) (t : Task) → c.held i ≡ some t → (t.status ≡ running) × WithinBounds s t

  Write-WithinBounds :
      (c : System Db) (t u : Task) → IsSound c → WithinBounds s t → Write s c t u → WithinBounds s u
  Write-WithinBounds c t u x h (updated now target allowed e) = ground arith
  Write-WithinBounds c t u x h (claimed now waits e) = ground arith
  Write-WithinBounds c t u x h (reclaimed now run e) =
      ground (arith, failed_task-WithinBounds s now.app t stalled h)
  Write-WithinBounds c t u x h (recorded now i l r holds same e) = rw e (
      merge-WithinBounds s now.db l (outcome_task s now.app l r) t
        (outcome_task-WithinBounds s now.app l r (x.held i l holds).1) h)

  RowChange-WithinBounds :
      (c : System Db) (j : ℕ) (o' : Option Task) (u : Task)
      → IsSound c
      → RowChange s c j (find j c.world.db) o'
      → o' ≡ some u
      → WithinBounds s u
  RowChange-WithinBounds c j o' u x (kept e) h = x.rows j u (sym e ∙ h)
  RowChange-WithinBounds c j o' u x (inserted now raw body valid e e') h =
      let b = new_task-WithinBounds s now j raw body valid in ground arith
  RowChange-WithinBounds c j o' u x (deleted e) h = ground arith
  RowChange-WithinBounds c j o' u x (wrote t v e e' w) h =
      let b = Write-WithinBounds c t v x (x.rows j t e) w in ground arith

  begin_process-absent : (id : ℕ) (d : Db) → find id d ≡ none → begin_process D id d ≡ none
  unfolding begin_process
  begin_process-absent id d e = ground (arith, session_get-none id d)

  -- What a session holds afterwards: what it held, or a row that it has just read running.
  begin-held :
      (c : System Db) (i id k : ℕ) (t : Task)
      → IsSound c
      → holding i (begin_process D id c.world.db) c.held k ≡ some t
      → (t.status ≡ running) × WithinBounds s t
  begin-held c i id k t x h = elim (Bool-cases (k == i)) [
    | inr other ↦ x.held k t (ground arith)
    | inl mine ↦ elim (Option-cases (find id c.world.db)) [
      | inl absent ↦ ground (arith, begin_process-absent id c.world.db absent)
      | inr (u, found) ↦
          let e = begin_process_lem D id c.world.db u found in
          let b = x.rows id u found in ground (arith, status_beq_iff u.status running)
    ]
  ]

  dropped-held :
      (c : System Db) (i k : ℕ) (t : Task) → holding i none c.held k ≡ some t → c.held k ≡ some t
  dropped-held c i k t h = ground arith

  held_at : {b c : System Db} (k : ℕ) {t : Task} → c ≡ b → c.held k ≡ some t → b.held k ≡ some t
  held_at k e h = rw e at h

  Step-held :
      (c c' : System Db) (k : ℕ) (t : Task)
      → IsSound c
      → Step D s c c'
      → c'.held k ≡ some t
      → (t.status ≡ running) × WithinBounds s t
  Step-held c c' k t x (create now id raw body r w valid fresh e same) h =
      x.held k t (held_at k same h)
  Step-held c c' k t x (update now id target r w e same) h = x.held k t (held_at k same h)
  Step-held c c' k t x (remove id r w e same) h = x.held k t (held_at k same h)
  Step-held c c' k t x (reclaim now locked r w past fits e same) h = x.held k t (held_at k same h)
  Step-held c c' k t x (claim now limit locked ts d e same) h = x.held k t (held_at k same h)
  Step-held c c' k t x (begin i id same) h = begin-held c i id k t x (held_at k same h)
  Step-held c c' k t x (finish i now l r r' w holds fits e same) h =
      x.held k t (dropped-held c i k t (held_at k same h))
  Step-held c c' k t x (lose i same) h = x.held k t (dropped-held c i k t (held_at k same h))

  Step-IsSound : (c c' : System Db) → Step D s c c' → IsSound c → IsSound c'
  Step-IsSound c c' st x = record {
    rows = λ j u h.
        RowChange-WithinBounds c j (find j c'.world.db) u x
          (Step-RowChange D s c c' j (λ i t holds. (x.held i t holds).0) st) h;
    held = λ k t h. Step-held c c' k t x st h;
  }

  -- No session holds anything yet.
  abbrev pub start : World Db → System Db
  start w = record { world = w; held = λ i. none }

  pub Run-IsSound :
      (w : World Db) (c : System Db)
      → ((i : ℕ) (u : Task) → find i w.db ≡ some u → WithinBounds s u)
      → Run D s (start w) c
      → IsSound c
  Run-IsSound w c first here = record { rows = first; held = λ i u h. ground arith }
  Run-IsSound w c first (next {b = b} r st) = Step-IsSound b c st (Run-IsSound w b first r)

  -- The bounds of a row are an invariant of the program: on a table whose rows are within them, such as an
  -- empty one, whatever the clients and the workers do in whatever order, no row ever has more retries than
  -- the maximum, an empty title or one above its maximal length, a last error of more than 1000 characters
  -- or a key of more than 255.
  pub Run-WithinBounds :
      (w : World Db) (c : System Db) (j : ℕ) (t : Task)
      → ((i : ℕ) (u : Task) → find i w.db ≡ some u → WithinBounds s u)
      → Run D s (start w) c
      → find j c.world.db ≡ some t
      → WithinBounds s t
  Run-WithinBounds w c j t first r found = (Run-IsSound w c first r).rows j t found
