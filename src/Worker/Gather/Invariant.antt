-- ===== src/Worker/Gather/Invariant.antt =====
-- What holds at any time while the tasks of a tick run at the same time.
use mathlib.Core.Path.{subst}
use taskpilot_assessment.Prelude.{
  ℕ, zero, suc, ◌+◌, ◌≤◌, ◌<◌, ◌≡◌, ◌∙◌, refl, Bool-cases, inl, inr, some, List, ◌∷◌, ◌++◌, arith,
  length, ◌==◌, nat_eq, nat_beq_iff, if◌then◌else◌,
}
use taskpilot_assessment.Config.{Settings}
use taskpilot_assessment.Models.{Task, running, status_eq, status_beq_iff}
use taskpilot_assessment.Database.{Database, Clock, World}
use taskpilot_assessment.Database.Changes.{merge-locked}
use taskpilot_assessment.Worker.Failure.Laws.{Fits}
use taskpilot_assessment.Worker.Process.{begin_process}
use taskpilot_assessment.Worker.Process.Laws.{
  run_result, outcome_task, outcome_task-facts, begin_process_lem, record_outcome_lem,
}
use taskpilot_assessment.Worker.Process.Races.{processed_row}
use taskpilot_assessment.System.{holding}
use taskpilot_assessment.Worker.Gather.{
  Gather, permits, end_run, Step, acquire, release, start, Run, here, next,
}
use taskpilot_assessment.Worker.Gather.Occurrences.{
  single, single_self, occurrences, occurrences-middle, length-middle,
}

module _ (D : Database) (s : Settings) where
  open D use {Db, find, find-id}

  end_run_self :
      (now : Clock) (lag : ℕ) (t : Task) (w : World Db)
      → Fits s now.app
      → find t.id w.db ≡ some t
      → t.status ≡ running
      → (j : ℕ)
      → find j (end_run D s now lag t.id (some t) w).db
        ≡ (if t.id == j then some (processed_row s now lag t) else find j w.db)
  unfolding end_run
  end_run_self now lag t w f found run j =
      let (d', e, rows) = record_outcome_lem D s now t t (run_result s lag t) w f run found in
      let (kept, changed) = outcome_task-facts s now.app t (run_result s lag t) run in
      rw (e, end_run)
        (rw (← merge-locked now.db t (outcome_task s now.app t (run_result s lag t)) kept) (rows j))

  end_run_lem :
      (now : Clock) (lag id : ℕ) (t : Task) (w : World Db)
      → Fits s now.app
      → find id w.db ≡ some t
      → t.status ≡ running
      → (j : ℕ)
      → find j (end_run D s now lag id (some t) w).db
        ≡ (if id == j then some (processed_row s now lag t) else find j w.db)
  end_run_lem now lag id t w f found run j =
      let same : t.id ≡ id = find-id id w.db t found in
      subst
        (λ i.
          find j (end_run D s now lag i (some t) w).db
          ≡ (if i == j then some (processed_row s now lag t) else find j w.db))
        same (end_run_self now lag t w f (cc (same, found)) run j)

  -- The tasks to run, each once and running.
  pub record IsClaimed (ids : List ℕ) (w : World Db) : Type 0 where
    pub once : (j : ℕ) → occurrences j ids ≤ 1
    pub runs :
        (j : ℕ) → 1 ≤ occurrences j ids → (t : Task) × (find j w.db ≡ some t) × (t.status ≡ running)

  -- What holds at any time.
  pub record IsSound (ids : List ℕ) (w : World Db) (g : Gather Db) : Type 0 where
    pub bounded : length g.processing ≤ permits s
    pub counted :
        (j : ℕ)
        → occurrences j g.waiting + occurrences j g.processing + occurrences j g.over
          ≡ occurrences j ids
    pub untouched : (j : ℕ) → occurrences j g.over ≡ 0 → find j g.world.db ≡ find j w.db
    pub held :
        (j : ℕ)
        → 1 ≤ occurrences j g.processing
        → (t : Task) × (find j w.db ≡ some t) × (t.status ≡ running) × (g.held j ≡ some t)
    pub ended :
        (j : ℕ)
        → 1 ≤ occurrences j g.over
        → (t : Task) × (now : Clock) × (lag : ℕ) × (find j w.db ≡ some t)
          × (find j g.world.db ≡ some (processed_row s now lag t))

  acquire-IsSound :
      (ids : List ℕ) (w : World Db) (g : Gather Db) (front back : List ℕ) (id : ℕ)
      → IsClaimed ids w
      → IsSound ids w g
      → g.waiting ≡ front ++ id ∷ back
      → length g.processing < permits s
      → IsSound ids w (record g {
        waiting = front ++ back;
        processing = id ∷ g.processing;
        held = holding id (begin_process D id g.world.db) g.held;
      })
  acquire-IsSound ids w g front back id c x e free =
      let split : (j : ℕ) → occurrences j g.waiting ≡ single id j + occurrences j (front ++ back) =
        λ j. rw e (occurrences-middle j front back id) in
      let waits : 1 ≤ occurrences id g.waiting = omega (arith, split id, single_self id) in
      let (t, found, run) = c.runs id (omega (arith, x.counted id)) in
      let there : find id g.world.db ≡ some t =
        x.untouched id (omega (arith, x.counted id, c.once id)) ∙ found in
      let reads : begin_process D id g.world.db ≡ some t =
        ground
          (arith, begin_process_lem D id g.world.db t there, status_beq_iff t.status running) in
      record {
        bounded = omega arith;
        counted = λ j. omega (arith, split j, x.counted j);
        untouched = x.untouched;
        held = λ j h. elim (Bool-cases (id == j)) [
          | inl same ↦
              let i : id ≡ j = (nat_beq_iff id j).0 same in
              (t, cc (i, found), run, ground (arith, reads))
          | inr other ↦
              let (u, found', run', holds) = x.held j (ground (arith, h)) in
              (u, found', run', ground (arith, holds, nat_beq_iff id j))
        ];
        ended = x.ended;
      }

  release-IsSound :
      (ids : List ℕ) (w : World Db) (g : Gather Db) (front back : List ℕ) (id lag : ℕ) (now : Clock)
      → IsClaimed ids w
      → IsSound ids w g
      → g.processing ≡ front ++ id ∷ back
      → Fits s now.app
      → IsSound ids w (record g {
        processing = front ++ back;
        over = id ∷ g.over;
        world = end_run D s now lag id (g.held id) g.world;
      })
  release-IsSound ids w g front back id lag now c x e fits =
      let split : (j : ℕ)
          → occurrences j g.processing ≡ single id j + occurrences j (front ++ back) =
        λ j. rw e (occurrences-middle j front back id) in
      let size : length g.processing ≡ 1 + length (front ++ back) =
        rw e (length-middle front back id) in
      let runs : 1 ≤ occurrences id g.processing = omega (arith, split id, single_self id) in
      let (t, found, run, holds) = x.held id runs in
      let there : find id g.world.db ≡ some t =
        x.untouched id (omega (arith, x.counted id, c.once id)) ∙ found in
      let rows : (j : ℕ)
          → find j (end_run D s now lag id (g.held id) g.world).db
            ≡ (if id == j then some (processed_row s now lag t) else find j g.world.db) =
        λ j. rw holds (end_run_lem now lag id t g.world fits there run j) in
      record {
        bounded = omega (arith, size, x.bounded);
        counted = λ j. omega (arith, split j, x.counted j);
        untouched = λ j h. ground (arith, rows j, x.untouched j);
        held = λ j h. x.held j (omega (arith, split j));
        ended = λ j h. elim (Bool-cases (id == j)) [
          | inl same ↦
              let i : id ≡ j = (nat_beq_iff id j).0 same in
              (t, now, lag, cc (i, found), ground (arith, rows j))
          | inr other ↦
              let (u, now', lag', found', row) = x.ended j (ground (arith, h)) in
              (u, now', lag', found', ground (arith, rows j))
        ];
      }

  Step-IsSound :
      (ids : List ℕ) (w : World Db) (g g' : Gather Db)
      → IsClaimed ids w
      → IsSound ids w g
      → Step D s g g'
      → IsSound ids w g'
  Step-IsSound ids w g g' c x (acquire front back id e free same) =
      rw same (acquire-IsSound ids w g front back id c x e free)
  Step-IsSound ids w g g' c x (release front back id now lag e fits same) =
      rw same (release-IsSound ids w g front back id lag now c x e fits)

  pub Run-IsSound :
      (ids : List ℕ) (w : World Db) (k : ℕ) (g : Gather Db)
      → IsClaimed ids w
      → Run D s (start D s ids w) k g
      → IsSound ids w g
  Run-IsSound ids w zero g c here = record {
    bounded = omega arith;
    counted = λ j. omega arith;
    untouched = λ j h. refl;
    held = λ j h. absurd (omega arith);
    ended = λ j h. absurd (omega arith);
  }
  Run-IsSound ids w (suc k) g c (next {b = b} r st) =
      Step-IsSound ids w b g c (Run-IsSound ids w k b c r) st
