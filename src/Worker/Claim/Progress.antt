-- ===== src/Worker/Claim/Progress.antt =====
-- No due task waits for ever: how many claims it takes until a task is taken.
use mathlib.Core.Option
use taskpilot_assessment.Prelude.{
  length-append, ℕ, ◌+◌, ◌*◌, ◌∙◌, ◌≤◌, ◌≡◌, refl, true, false, Bool, ◌&&◌, ◌||◌, some, List, [],
  ◌∷◌, ◌++◌, arith, All, length, leb, ◌==◌, nat_eq, Bool-cases, Option-cases, inl, inr,
  if◌then◌else◌,
}
use taskpilot_assessment.Errors.{ok, err}
use taskpilot_assessment.Models.{Task, pending, status_eq}
use taskpilot_assessment.Database.{Database, Clock, has_id}
use taskpilot_assessment.Database.Counting.{
  IsFound, counted, length_le_count, Distinct-append, All-append,
}
use taskpilot_assessment.Worker.Claim.{is_due, claimed, due_tasks, claim_due_tasks}
use taskpilot_assessment.Worker.Claim.Laws.{run_row, claim_due_tasks-rows, has_id-claimed}

-- A task that is pending and scheduled no later than `t`, as `t` itself is.
abbrev pub is_ahead : Task → Task → Bool
is_ahead t u = u.status == pending && leb u.scheduled_at t.scheduled_at

module _ (D : Database) (t : Task) where
  open D use {Db, find, count, select_sound, select_distinct, select_complete}

  still :
      (now : ℕ) (us : List Task) (x : Task) (d d' : Db)
      → find x.id d'
        ≡ (if has_id x.id us then Option.map (run_row now) (find x.id d) else find x.id d)
      → find x.id d' ≡ some x
      → is_ahead t x ≡ true
      → (has_id x.id us ≡ false) × IsFound D (is_ahead t) d x
  still now us x d d' row found ahead = elim (Bool-cases (has_id x.id us)) [
    | inr h ↦ (h, (ground arith, ahead))
    | inl h ↦ elim (Option-cases (find x.id d)) [
      | inl none' ↦ ground arith
      | inr (y, there) ↦ let same : run_row now y ≡ x = ground arith in absurd (ground arith)
    ]
  ]

  -- What is still ahead after a claim was ahead before it, and was not claimed.
  remaining :
      (now : ℕ) (us xs : List Task) (d d' : Db)
      → ((j : ℕ)
          → find j d' ≡ (if has_id j us then Option.map (run_row now) (find j d) else find j d))
      → All (IsFound D (is_ahead t) d') xs
      → All (λ x. (has_id x.id us ≡ false) × IsFound D (is_ahead t) d x) xs
  remaining now us [] d d' rows a = tt
  remaining now us (x ∷ xs) d d' rows ((found, ahead), a) =
      (still now us x d d' (rows x.id) found ahead, remaining now us xs d d' rows a)

  -- What the claim selects is ahead of a task that it leaves.
  selected_ahead :
      (now : ℕ) (locked : ℕ → Bool) (d : Db) (us : List Task)
      → All (λ u. (find u.id d ≡ some u) × (is_due now u ≡ true) × (locked u.id ≡ false)) us
      → All (λ u. u.scheduled_at ≤ t.scheduled_at) us
      → All (IsFound D (is_ahead t) d) us
  selected_ahead now locked d [] a b = tt
  selected_ahead now locked d (u ∷ us) ((found, due, free), a) (older, b) =
      ((found, ground arith), selected_ahead now locked d us a b)

  others :
      (us xs : List Task) (d : Db)
      → All (λ x. (has_id x.id us ≡ false) × IsFound D (is_ahead t) d x) xs
      → All (λ x. has_id x.id us ≡ false) xs × All (IsFound D (is_ahead t) d) xs
  others us [] d a = (tt, tt)
  others us (x ∷ xs) d ((fresh, found), a) =
      let (b, c) = others us xs d a in ((fresh, b), (found, c))

  -- A claim that leaves a due task has taken as many tasks ahead of it as it may take.
  claim_due_tasks-count :
      (now : Clock) (limit : ℕ) (locked : ℕ → Bool) (d d' : Db) (ts : List Task)
      → claim_due_tasks D now limit locked d ≡ ok (ts, d')
      → find t.id d ≡ some t
      → t.status ≡ pending
      → t.scheduled_at ≤ now.app
      → locked t.id ≡ false
      → has_id t.id ts ≡ false
      → count (is_ahead t) d' + limit ≤ count (is_ahead t) d
  unfolding due_tasks
  claim_due_tasks-count now limit locked d d' ts e found waits due free left =
      let (d₁, e₁, rows) = claim_due_tasks-rows D now limit locked d in
      let us = due_tasks D now.app limit locked d in
      let same : d₁ ≡ d' = cc (e, e₁) in
      let same' : ts ≡ claimed us = cc (e, e₁) in
      let left' : has_id t.id us ≡ false = rw (same', has_id-claimed) at left in
      let (full, older) =
        select_complete (is_due now.app) (λ u. u.scheduled_at) limit locked d t found (ground arith)
          free left' in
      let ahead = selected_ahead now.app locked d us (select_sound _ _ _ _ _) older in
      let (xs, apart, sound, length_xs, complete) = counted D (is_ahead t) d' in
      let (fresh, kept) = others us xs d (remaining now.db us xs d d' (rw same at rows) sound) in
      let bound =
        length_le_count D (is_ahead t) d (xs ++ us)
          (Distinct-append xs us apart (select_distinct _ _ _ _ _) fresh)
          (All-append (IsFound D (is_ahead t) d) xs us kept ahead) in
      omega (arith, bound, length-append xs us, full, length_xs)

-- One claim of any worker: its clock, the rows that others have locked, and what other transactions
-- commit between it and the next one.
pub record Turn (S : Type 0) : Type 0 where
  pub now : Clock
  pub locked : ℕ → Bool
  pub between : S → S

module _ (D : Database) where
  open D use {Db, find, count}

  -- One of the claims takes the task.
  unfoldable pub is_taken : (limit id : ℕ) → List (Turn Db) → Db → Bool
  is_taken limit id [] d = false
  is_taken limit id (r ∷ rs) d = elim (claim_due_tasks D r.now limit r.locked d) [
    | err e ↦ false
    | ok (ts, d') ↦ has_id id ts || is_taken limit id rs (r.between d')
  ]

  -- The task is due at the claim and not locked, and the transactions after it neither change its row
  -- nor put further tasks ahead of it.
  pub record IsFair (t : Task) (r : Turn Db) : Type 0 where
    pub due : t.scheduled_at ≤ r.now.app
    pub free : r.locked t.id ≡ false
    pub kept : (d : Db) → find t.id d ≡ some t → find t.id (r.between d) ≡ some t
    pub no_more : (d : Db) → count (is_ahead t) (r.between d) ≤ count (is_ahead t) d

  -- No due task starves: a pending task that is due and not locked is taken by one of the next claims, of
  -- whichever workers, once they may take as many tasks together as there are pending ones that are
  -- scheduled no later, when the transactions between the claims leave its row and put no more tasks
  -- ahead of it.
  pub claim_due_tasks_no_starvation :
      (limit : ℕ) (rs : List (Turn Db)) (d : Db) (t : Task)
      → All (IsFair t) rs
      → find t.id d ≡ some t
      → t.status ≡ pending
      → count (is_ahead t) d ≤ limit * length rs
      → is_taken limit t.id rs d ≡ true
  unfolding is_taken
  claim_due_tasks_no_starvation limit [] d t a found waits few =
      let ahead : is_ahead t t ≡ true = ground arith in
      absurd
        (omega (arith, length_le_count D (is_ahead t) d (t ∷ []) (refl, tt) ((found, ahead), tt)))
  claim_due_tasks_no_starvation limit (r ∷ rs) d t (fair, a) found waits few =
      let (d', e, rows) = claim_due_tasks-rows D r.now limit r.locked d in
      let us = due_tasks D r.now.app limit r.locked d in
      elim (Bool-cases (has_id t.id us)) [
        | inl h ↦ rw (e, is_taken) (rw (has_id-claimed, h) refl)
        | inr h ↦
            let left : has_id t.id (claimed us) ≡ false = rw has_id-claimed h in
            let fewer =
              claim_due_tasks-count D t r.now limit r.locked d d' (claimed us) e found waits
                fair.due fair.free left in
            let there : find t.id d' ≡ some t = rows t.id ∙ rw h found in
            let more = fair.no_more d' in
            let rest =
              claim_due_tasks_no_starvation limit rs (r.between d') t a (fair.kept d' there) waits
                (omega arith) in
            rw (e, is_taken) (rw (left, rest) refl)
      ]
