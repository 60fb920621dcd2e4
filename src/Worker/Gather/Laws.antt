-- ===== src/Worker/Gather/Laws.antt =====
-- What the tasks of a tick come to when they run at the same time.
use taskpilot_assessment.Prelude.{
  ℕ, Bool, true, false, zero, suc, ◌+◌, ◌*◌, ◌≤◌, ◌<◌, ◌≡◌, refl, max, Bool-cases, inl, inr, some,
  List, [], ◌∷◌, arith, length, ◌==◌, nat_eq, nat_beq_iff,
}
use taskpilot_assessment.Config.{Settings}
use taskpilot_assessment.Models.{Task, status_eq}
use taskpilot_assessment.Database.{Database, Clock, World}
use taskpilot_assessment.Worker.Failure.Laws.{Fits}
use taskpilot_assessment.Worker.Process.Races.{processed_row}
use taskpilot_assessment.Worker.Gather.{Gather, Step, acquire, release, start, Run, here, next}
use taskpilot_assessment.Worker.Gather.Occurrences.{
  occurrences, length-middle, occurrences-length, List-cases,
}
use taskpilot_assessment.Worker.Gather.Invariant.{IsClaimed, Run-IsSound}
use taskpilot_assessment.Database.{Distinct, has_id}
use taskpilot_assessment.Worker.Claim.{claim_due_tasks}
use taskpilot_assessment.Worker.Claim.Laws.{run_row, claim_due_tasks_lem}
use taskpilot_assessment.Errors.{ok}

-- The ids of the claimed tasks.
abbrev pub ids_of : List Task → List ℕ
ids_of [] = []
ids_of (t ∷ ts) = t.id ∷ ids_of ts

occurrences-ids_of :
    (j : ℕ) (ts : List Task)
    → (has_id j ts ≡ false → occurrences j (ids_of ts) ≡ 0)
      × (1 ≤ occurrences j (ids_of ts) → has_id j ts ≡ true)
occurrences-ids_of j [] = (λ h. refl, λ h. absurd (omega arith))
occurrences-ids_of j (t ∷ ts) =
    let (absent, there) = occurrences-ids_of j ts in
    (λ h. ground (arith, absent), λ h. ground (arith, there))

occurrences-Distinct : (j : ℕ) (ts : List Task) → Distinct ts → occurrences j (ids_of ts) ≤ 1
occurrences-Distinct j [] u = omega arith
occurrences-Distinct j (t ∷ ts) (fresh, u) = elim (Bool-cases (t.id == j)) [
  | inl same ↦
      let i : t.id ≡ j = (nat_beq_iff t.id j).0 same in
      let none' = (occurrences-ids_of j ts).0 (cc (i, fresh)) in ground (arith, none')
  | inr other ↦ ground (arith, occurrences-Distinct j ts u)
]

module _ (D : Database) (s : Settings) where
  open D use {Db, find, find-id}

  -- The steps that are left: two for a task that waits, and one for a task that holds the semaphore.
  abbrev pub left : Gather Db → ℕ
  left g = 2 * length g.waiting + length g.processing

  Step-left : (g g' : Gather Db) → Step D s g g' → left g ≡ 1 + left g'
  Step-left g g' (acquire front back id e free same) =
      rw (same, e) (omega (arith, length-middle front back id))
  Step-left g g' (release front back id now lag e fits same) =
      rw (same, e) (omega (arith, length-middle front back id))

  Run-left :
      (ids : List ℕ) (w : World Db) (k : ℕ) (g : Gather Db)
      → Run D s (start D s ids w) k g
      → k + left g ≡ 2 * length ids
  Run-left ids w zero g here = omega arith
  Run-left ids w (suc k) g (next {b = b} r st) =
      omega (arith, Run-left ids w k b r, Step-left b g st)

  -- Unless every coroutine has ended, one of them can go on.
  progress :
      (g : Gather Db) (now : Clock) → Fits s now.app → 1 ≤ left g → (g' : Gather Db) × Step D s g g'
  progress g now fits more = elim (List-cases g.processing) [
    | inr (id, ids, e) ↦ (_, release [] ids id now 0 e fits refl)
    | inl none' ↦ elim (List-cases g.waiting) [
      | inr (id, ids, e) ↦ (_, acquire [] ids id e (rw none' (omega arith)) refl)
      | inl none'' ↦ absurd (ground (arith, none', none''))
    ]
  ]

  -- However the claimed tasks of a tick, each once and running, interleave, when a delay fits the calendar
  -- and no other transaction comes in between: no more of them are processed at the same time than the
  -- setting allows, or one if it is 0. The tick cannot get stuck: until it has made two steps for each task
  -- another one is possible, and it never makes more. Then every task's row is the outcome of its run; the
  -- rows of other tasks are as they were at any time.
  pub gather_lem :
      (ids : List ℕ) (w : World Db) (k : ℕ) (g : Gather Db) (now : Clock)
      → IsClaimed D s ids w
      → Fits s now.app
      → Run D s (start D s ids w) k g
      → (length g.processing ≤ max 1 s.worker_concurrency)
        × (k ≤ 2 * length ids)
        × (k < 2 * length ids → (g' : Gather Db) × Step D s g g')
        × (k ≡ 2 * length ids
            → (j : ℕ) → 1 ≤ occurrences j ids
            → (t : Task) × (now' : Clock) × (lag : ℕ) × (find j w.db ≡ some t)
              × (find j g.world.db ≡ some (processed_row s now' lag t)))
        × ((j : ℕ) → occurrences j ids ≡ 0 → find j g.world.db ≡ find j w.db)
  gather_lem ids w k g now c fits r =
      let x = Run-IsSound D s ids w k g c r in
      let steps : k + left g ≡ 2 * length ids = Run-left ids w k g r in
      (
        x.bounded,
        omega (arith, steps),
        λ h. progress g now fits (omega (arith, steps)),
        λ h j there. x.ended j (
            omega (
              arith,
              steps,
              x.counted j,
              occurrences-length j g.waiting,
              occurrences-length j g.processing,
            )),
        λ j h. x.untouched j (omega (arith, x.counted j)),
      )

  -- What a claim takes is what the tick runs.
  pub claim_due_tasks-IsClaimed :
      (now : Clock) (limit : ℕ) (locked : ℕ → Bool) (w : World Db) (ts : List Task) (d : Db)
      → claim_due_tasks D now limit locked w.db ≡ ok (ts, d)
      → IsClaimed D s (ids_of ts) (record w { db = d })
  claim_due_tasks-IsClaimed now limit locked w ts d e =
      let (us, d', e', c) = claim_due_tasks_lem D now limit locked w.db in
      let same : us ≡ ts = ground arith in
      let same' : d' ≡ d = ground arith in
      record {
        once = λ j. rw (← same) (occurrences-Distinct j us c.apart);
        runs = λ j h.
            let (t, found, waits, due, free, row) =
              c.taken j (rw same ((occurrences-ids_of j ts).1 h)) in
            (run_row now.db t, rw (← same') row, refl);
      }
