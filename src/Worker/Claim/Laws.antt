-- ===== src/Worker/Claim/Laws.antt =====
-- What a claim does to the table, which tasks it takes, and why two claims never share one.
use mathlib.Core.Option
use taskpilot_assessment.Prelude.{
  ℕ, ◌∙◌, ◌≤◌, ◌≡◌, refl, true, false, Bool, some, List, [], ◌∷◌, arith, All, length, nat_eq,
  if◌then◌else◌,
}
use taskpilot_assessment.Errors.{ok}
use taskpilot_assessment.Models.{Task, pending, status_eq, status_beq_iff}
use taskpilot_assessment.Database.{Database, Clock, Distinct, has_id}
use taskpilot_assessment.Database.Rows.{All-has_id}
use taskpilot_assessment.Database.Changes.{change_all, touch, IsLocked, commit-change_all}
use taskpilot_assessment.Worker.Claim.{
  is_due, set_running, claim_each, claimed, due_tasks, claim_due_tasks,
}

-- The row of a claimed task.
abbrev pub run_row : (now : ℕ) → Task → Task
run_row now t = touch now (set_running t)

pub claim_each-eq-change_all : (ts : List Task) → claim_each ts ≡ change_all set_running ts
claim_each-eq-change_all [] = refl
claim_each-eq-change_all (t ∷ ts) = ground (arith, claim_each-eq-change_all ts)

pub has_id-claimed : (j : ℕ) (ts : List Task) → has_id j (claimed ts) ≡ has_id j ts
has_id-claimed j [] = refl
has_id-claimed j (t ∷ ts) = ground (arith, has_id-claimed j ts)

length-claimed : (ts : List Task) → length (claimed ts) ≡ length ts
length-claimed [] = refl
length-claimed (t ∷ ts) = ground (arith, length-claimed ts)

Distinct-claimed : (ts : List Task) → Distinct ts → Distinct (claimed ts)
Distinct-claimed [] u = tt
Distinct-claimed (t ∷ ts) (h, u) = (has_id-claimed t.id ts ∙ h, Distinct-claimed ts u)

All-claimed :
    (n : ℕ) (ts : List Task)
    → All (λ u. u.scheduled_at ≤ n) ts
    → All (λ u. u.scheduled_at ≤ n) (claimed ts)
All-claimed n [] a = tt
All-claimed n (t ∷ ts) (h, a) = (h, All-claimed n ts a)

module _ (D : Database) where
  open D use {
    Db, find, find-id, select_for_update, select_sound, select_distinct, select_limit,
    select_complete,
  }

  -- What the query says of each row that it selects.
  abbrev IsSelected : (now : ℕ) → (ℕ → Bool) → Db → Task → Type 0
  IsSelected now locked d t = (find t.id d ≡ some t) × (is_due now t ≡ true) × (locked t.id ≡ false)

  is_due-facts :
      (now : ℕ) (t : Task) → is_due now t ≡ true → (t.status ≡ pending) × (t.scheduled_at ≤ now)
  is_due-facts now t h = ground (arith, status_beq_iff t.status pending)

  All-IsLocked :
      (now : ℕ) (locked : ℕ → Bool) (d : Db) (ts : List Task)
      → All (IsSelected now locked d) ts
      → All (λ t. IsLocked D d (t, set_running t)) ts
  All-IsLocked now locked d [] a = tt
  All-IsLocked now locked d (t ∷ ts) (h, a) =
      let (waiting, due) = is_due-facts now t h.1 in
      ((h.0, ground arith, ground arith), All-IsLocked now locked d ts a)

  -- The claim is total, and each row reads as before or as running.
  pub claim_due_tasks-rows :
      (now : Clock) (limit : ℕ) (locked : ℕ → Bool) (d : Db)
      → (d' : Db) × (claim_due_tasks D now limit locked d
          ≡ ok (claimed (due_tasks D now.app limit locked d), d'))
        × ((j : ℕ)
            → find j d' ≡ (
                if has_id j (due_tasks D now.app limit locked d)
                then Option.map (run_row now.db) (find j d)
                else find j d))
  unfolding claim_due_tasks due_tasks
  claim_due_tasks-rows now limit locked d =
      let ts = select_for_update (is_due now.app) (λ t. t.scheduled_at) limit locked d in
      let sound : All (IsSelected now.app locked d) ts = select_sound _ _ _ _ _ in
      let (d', e, rows) =
        commit-change_all D set_running now.db d ts (All-IsLocked now.app locked d ts sound)
          (select_distinct _ _ _ _ _) in
      (d', rw (claim_each-eq-change_all, e), rows)

  -- The effect of a claim that takes the tasks `ts`.
  pub record IsClaim (now : Clock) (limit : ℕ) (locked : ℕ → Bool) (d : Db) (ts : List Task)
      (d' : Db) : Type 0 where
    pub bounded : length ts ≤ limit
    pub apart : Distinct ts
    pub taken :
        (j : ℕ)
        → has_id j ts ≡ true
        → (t : Task) × (find j d ≡ some t)
          × (t.status ≡ pending)
          × (t.scheduled_at ≤ now.app)
          × (locked j ≡ false)
          × (find j d' ≡ some (run_row now.db t))
    pub others : (j : ℕ) → has_id j ts ≡ false → find j d' ≡ find j d

  taken-due_tasks :
      (now : Clock) (locked : ℕ → Bool) (d d' : Db) (ts : List Task) (j : ℕ)
      → All (IsSelected now.app locked d) ts
      → find j d' ≡ (if has_id j ts then Option.map (run_row now.db) (find j d) else find j d)
      → has_id j ts ≡ true
      → (t : Task) × (find j d ≡ some t)
        × (t.status ≡ pending)
        × (t.scheduled_at ≤ now.app)
        × (locked j ≡ false)
        × (find j d' ≡ some (run_row now.db t))
  taken-due_tasks now locked d d' ts j a e h =
      let (t, same, (found, due, free)) = All-has_id (IsSelected now.app locked d) j ts a h in
      let (waiting, at) = is_due-facts now.app t due in
      let found' : find j d ≡ some t = rw same at found in
      (t, found', waiting, at, rw same at free, ground arith)

  -- Claiming always succeeds. It takes at most `limit` tasks, no task twice; a task that it takes was
  -- pending, due and not locked by another transaction, and now reads as running with nothing else
  -- changed but `updated_at`; every other row reads as before.
  pub claim_due_tasks_lem :
      (now : Clock) (limit : ℕ) (locked : ℕ → Bool) (d : Db)
      → (ts : List Task) × (d' : Db) × (claim_due_tasks D now limit locked d ≡ ok (ts, d'))
        × IsClaim now limit locked d ts d'
  unfolding due_tasks
  claim_due_tasks_lem now limit locked d =
      let (d', e, rows) = claim_due_tasks-rows now limit locked d in
      let ts = due_tasks D now.app limit locked d in
      (
        claimed ts,
        d',
        e,
        record {
          bounded = rw length-claimed (select_limit _ _ _ _ _);
          apart = Distinct-claimed (due_tasks D now.app limit locked d) (select_distinct _ _ _ _ _);
          taken = λ j h.
              taken-due_tasks now locked d d' ts j (select_sound _ _ _ _ _) (rows j)
                (rw has_id-claimed at h);
          others = λ j h. ground (arith, rows j, has_id-claimed j ts);
        },
      )

  -- When a pending, due and unlocked task is left unclaimed, the claim took exactly `limit` tasks, and
  -- none of them was scheduled after it.
  pub claim_due_tasks_oldest_first :
      (now : Clock) (limit : ℕ) (locked : ℕ → Bool) (d d' : Db) (ts : List Task) (t : Task)
      → claim_due_tasks D now limit locked d ≡ ok (ts, d')
      → find t.id d ≡ some t
      → t.status ≡ pending
      → t.scheduled_at ≤ now.app
      → locked t.id ≡ false
      → has_id t.id ts ≡ false
      → (length ts ≡ limit) × All (λ u. u.scheduled_at ≤ t.scheduled_at) ts
  unfolding due_tasks
  claim_due_tasks_oldest_first now limit locked d d' ts t e found waiting due free left =
      let (d₁, e₁, rows) = claim_due_tasks-rows now limit locked d in
      let us = due_tasks D now.app limit locked d in
      let same : ts ≡ claimed us = cc (e, e₁) in
      let left' : has_id t.id us ≡ false = rw (same, has_id-claimed) at left in
      let (full, older) =
        select_complete (is_due now.app) (λ u. u.scheduled_at) limit locked d t found (ground arith)
          free left' in
      (rw (same, length-claimed) full, rw same (All-claimed t.scheduled_at us older))
