-- ===== src/Worker/Claim/Exclusion.antt =====
-- No task is claimed twice, however the claims of several workers and the other transactions fall.
use mathlib.Core.Option
use taskpilot_assessment.Prelude.{
  ℕ, ◌+◌, ◌≤◌, ◌≡◌, refl, Bool, true, false, some, List, [], ◌∷◌, arith, All, ◌==◌, nat_eq,
  nat_beq_iff, if◌then◌else◌, Bool-cases, inl, inr,
}
use taskpilot_assessment.Errors.{ok}
use taskpilot_assessment.Models.{Task, pending, status_eq, status_beq_iff}
use taskpilot_assessment.Database.{Database, Distinct, has_id}
use taskpilot_assessment.Database.Rows.{All-has_id}
use taskpilot_assessment.Database.Changes.{commit_changes, commit-change_all, touch, IsLocked}
use taskpilot_assessment.Worker.Claim.{is_due, set_running, claim_each, due_tasks}
use taskpilot_assessment.Worker.Claim.Laws.{claim_each-eq-change_all}
use taskpilot_assessment.Worker.Claim.Cluster.{
  Cluster, Step, select, commit, rollback, other, Run, here, next, start, pendings, hold, lock,
  unlock, tally,
}
use taskpilot_assessment.Worker.Claim.Held.{
  Held, IsExclusive, Held-keep, Held-row, Held-locked, other-IsExclusive, released-Held,
  released-apart, released-disjoint,
}

module _ (D : Database) where
  open D use {Db, find, select_sound, select_distinct}

  -- The rows that the query of a claim selects.
  Selected : Db → ℕ → (ℕ → Bool) → Task → Type 0
  Selected d now locked t = (find t.id d ≡ some t) × (is_due now t ≡ true) × (locked t.id ≡ false)

  Selected-Held :
      (d : Db) (now : ℕ) (f g : ℕ → Bool) (ts : List Task)
      → ((j : ℕ) → has_id j ts ≡ true → g j ≡ true)
      → All (Selected d now f) ts
      → All (Held D d g) ts
  unfolding Selected
  Selected-Held d now f g [] locks a = tt
  Selected-Held d now f g (t ∷ ts) locks ((found, due, free), a) = (
    (
      found,
      ground (arith, status_beq_iff t.status pending),
      locks t.id (ground (arith, nat_beq_iff t.id t.id)),
    ),
    Selected-Held d now f g ts (λ j h. locks j (ground arith)) a,
  )

  -- Worker `i` takes rows that no worker holds.
  Selected-fresh :
      (c : Cluster Db) (now : ℕ) (ts : List Task) (k j : ℕ)
      → IsExclusive D c
      → All (Selected c.db now c.locked) ts
      → has_id j ts ≡ true
      → has_id j (c.holding k) ≡ false
  unfolding Selected
  Selected-fresh c now ts k j x a h = elim (Bool-cases (has_id j (c.holding k))) [
    | inl old ↦
        let (t, same, (found, due, free)) = All-has_id (Selected c.db now c.locked) j ts a h in
        let free' : c.locked j ≡ false = rw same at free in
        ground (arith, Held-locked D c.db c.locked (c.holding k) j (x.held k) old)
    | inr new ↦ new
  ]

  select-IsExclusive :
      (c : Cluster Db) (i now limit : ℕ) (ts : List Task)
      → All (Selected c.db now c.locked) ts
      → Distinct ts
      → IsExclusive D c
      → IsExclusive D (record c { locked = lock ts c.locked; holding = hold i ts c.holding })
  select-IsExclusive c i now limit ts sound distinct x = record {
    held = λ k. elim (Bool-cases (k == i)) [
      | inl h ↦
          rw h (Selected-Held c.db now c.locked (lock ts c.locked) ts (λ j m. ground arith) sound)
      | inr h ↦ rw h (
          Held-keep D c.db c.db c.locked (lock ts c.locked) (c.holding k) (λ j m. refl)
            (λ j m l. ground arith) (x.held k))
    ];
    apart = λ k. elim (Bool-cases (k == i)) [ inl h ↦ rw h distinct | inr h ↦ rw h (x.apart k) ];
    disjoint = λ a b j ha hb. elim (Bool-cases (a == i)) [
      | inl h ↦ elim (Bool-cases (b == i)) [
        | inl h' ↦ ground (arith, nat_beq_iff a i, nat_beq_iff b i)
        | inr h' ↦ ground (arith, Selected-fresh c now ts b j x sound)
      ]
      | inr h ↦ elim (Bool-cases (b == i)) [
        | inl h' ↦ ground (arith, Selected-fresh c now ts a j x sound)
        | inr h' ↦ x.disjoint a b j (ground arith) (ground arith)
      ]
    ];
    counted = x.counted;
  }

  Held-IsLocked :
      (d : Db) (f : ℕ → Bool) (ts : List Task)
      → All (Held D d f) ts
      → All (λ t. IsLocked D d (t, set_running t)) ts
  Held-IsLocked d f [] a = tt
  Held-IsLocked d f (t ∷ ts) ((found, waits, lock'), a) =
      ((found, ground arith, ground arith), Held-IsLocked d f ts a)

  -- Where the workers' claims exclude each other, the commit of a claim is possible, and makes running exactly the rows that the worker holds.
  commit-rows :
      (c : Cluster Db) (i now : ℕ)
      → IsExclusive D c
      → (d' : Db) × (commit_changes D now (claim_each (c.holding i)) c.db ≡ ok d')
        × ((j : ℕ)
            → find j d' ≡ (
                if has_id j (c.holding i)
                then Option.map (λ t. touch now (set_running t)) (find j c.db)
                else find j c.db))
  commit-rows c i now x =
      let (d', e, rows) =
        commit-change_all D set_running now c.db (c.holding i)
          (Held-IsLocked c.db c.locked (c.holding i) (x.held i)) (x.apart i) in
      (d', rw claim_each-eq-change_all e, rows)

  commit-counted :
      (c : Cluster Db) (i now : ℕ) (d' : Db) (j : ℕ)
      → IsExclusive D c
      → find j d' ≡ (
          if has_id j (c.holding i)
          then Option.map (λ t. touch now (set_running t)) (find j c.db)
          else find j c.db)
      → tally (c.holding i) c.claims j + pendings (find j d') ≤ c.made j
  commit-counted c i now d' j x row = elim (Bool-cases (has_id j (c.holding i))) [
    | inl mine ↦
        let (t, found, waits, lock') = Held-row D c.db c.locked (c.holding i) j (x.held i) mine in
        ground (arith, x.counted j)
    | inr h ↦ ground (arith, x.counted j)
  ]

  commit-IsExclusive :
      (c : Cluster Db) (i now : ℕ) (d' : Db)
      → commit_changes D now (claim_each (c.holding i)) c.db ≡ ok d'
      → IsExclusive D c
      → IsExclusive D (record c {
        db = d';
        locked = unlock (c.holding i) c.locked;
        holding = hold i [] c.holding;
        claims = tally (c.holding i) c.claims;
      })
  commit-IsExclusive c i now d' e x =
      let (d₁, e₁, rows₁) = commit-rows c i now x in
      let same : d₁ ≡ d' = ground (arith, e, e₁) in
      let rows : (j : ℕ)
          → find j d' ≡ (
              if has_id j (c.holding i)
              then Option.map (λ t. touch now (set_running t)) (find j c.db)
              else find j c.db) =
        rw same at rows₁ in
      record {
        held = λ k. released-Held D c i d' k x (λ j h. ground (arith, rows j));
        apart = λ k. released-apart D c i k x;
        disjoint = λ a b j. released-disjoint D c i a b j x;
        counted = λ j. commit-counted c i now d' j x (rows j);
      }

  due_tasks-Selected :
      (c : Cluster Db) (now limit : ℕ)
      → All (Selected c.db now c.locked) (due_tasks D now limit c.locked c.db)
  unfolding due_tasks Selected
  due_tasks-Selected c now limit = select_sound _ _ _ _ _

  due_tasks-Distinct :
      (c : Cluster Db) (now limit : ℕ) → Distinct (due_tasks D now limit c.locked c.db)
  unfolding due_tasks
  due_tasks-Distinct c now limit = select_distinct _ _ _ _ _

  Step-IsExclusive : {c e : Cluster Db} → Step D c e → IsExclusive D c → IsExclusive D e
  unfolding Selected
  Step-IsExclusive {c = c} (select i now limit idle) x =
      select-IsExclusive c i now limit (due_tasks D now limit c.locked c.db)
        (due_tasks-Selected c now limit) (due_tasks-Distinct c now limit) x
  Step-IsExclusive {c = c} (commit i now d' e) x = commit-IsExclusive c i now d' e x
  Step-IsExclusive {c = c} (rollback i) x = record {
    held = λ k. released-Held D c i c.db k x (λ j h. refl);
    apart = λ k. released-apart D c i k x;
    disjoint = λ a b j. released-disjoint D c i a b j x;
    counted = x.counted;
  }
  Step-IsExclusive {c = c} (other d' kept) x = other-IsExclusive D c d' kept x

  -- However the claims of several workers, their losses and other transactions follow each other: no
  -- two workers ever hold the same task, what a worker holds is pending and locked, and a task has been
  -- claimed at most as often as it was made pending.
  pub Run-IsExclusive : (d : Db) (c : Cluster Db) → Run D (start D d) c → IsExclusive D c
  Run-IsExclusive d c here = record {
    held = λ i. tt;
    apart = λ i. tt;
    disjoint = λ i k j h. ground arith;
    counted = λ j. omega arith;
  }
  Run-IsExclusive d c (next {b = b} r st) = Step-IsExclusive st (Run-IsExclusive d b r)
