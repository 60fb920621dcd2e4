-- ===== src/Database/Changes.antt =====
-- The commit of a transaction that has locked the rows that it loaded: one UPDATE for each object,
-- and all of them or none.
use mathlib.Core.Option
use taskpilot_assessment.Prelude.{
  ℕ, ◌≡◌, ◌≢◌, ◌∙◌, refl, false, Option, some, List, [], ◌∷◌, arith, All, ◌==◌, nat_eq, nat_beq_iff,
  if◌then◌else◌,
}
use taskpilot_assessment.Errors.{Result, ok, ◌>>=◌}
use taskpilot_assessment.Models.{Task, status_eq, option_eq, status_beq_iff, option_beq_iff}
use taskpilot_assessment.Database.{Database, merge, SameIdentity, Distinct, has_id}

-- An object as it was loaded, and as the transaction leaves it.
abbrev pub Change : Type 0
Change = Task × Task

abbrev pub loaded : List Change → List Task
loaded [] = []
loaded (c ∷ cs) = c.0 ∷ loaded cs

-- The row that an object is written as, `updated_at` set by the database.
abbrev pub touch : ℕ → Task → Task
touch now t = record t { updated_at = now }

-- What the primary key `j` reads after the changes, where it read `o` before.
abbrev pub written : ℕ → List Change → ℕ → Option Task → Option Task
written now [] j o = o
written now (c ∷ cs) j o = if c.0.id == j then some (touch now c.1) else written now cs j o

written_absent :
    (now : ℕ) (cs : List Change) (j : ℕ) (o : Option Task)
    → has_id j (loaded cs) ≡ false
    → written now cs j o ≡ o
written_absent now [] j o h = refl
written_absent now (c ∷ cs) j o h = ground (arith, written_absent now cs j o)

-- The columns of a locked row are those of the object that was loaded.
pub merge-locked : (now : ℕ) (l c : Task) → SameIdentity l c → merge now l c l ≡ touch now c
merge-locked now l c h = ground (
  arith,
  status_beq_iff l.status c.status,
  option_beq_iff l.last_error c.last_error,
  nat_beq_iff l.retry_count c.retry_count,
  nat_beq_iff l.scheduled_at c.scheduled_at,
)

-- The same change of every row that was selected.
abbrev pub change_all : (Task → Task) → List Task → List Change
change_all f [] = []
change_all f (t ∷ ts) = (t, f t) ∷ change_all f ts

loaded-change_all : (f : Task → Task) (ts : List Task) → loaded (change_all f ts) ≡ ts
loaded-change_all f [] = refl
loaded-change_all f (t ∷ ts) = ground (arith, loaded-change_all f ts)

module _ (D : Database) where
  open D use {Db, find, flush, flush_found}

  unfoldable pub commit_changes : ℕ → List Change → Db → Result Db
  commit_changes now [] d = ok d
  commit_changes now (c ∷ cs) d = do d' ← flush now c.0 c.1 d; commit_changes now cs d'

  -- The row of a change is the one in the table, its status changes and its identity does not.
  abbrev pub IsLocked : Db → Change → Type 0
  IsLocked d c = (find c.0.id d ≡ some c.0) × (c.0.status ≢ c.1.status) × SameIdentity c.0 c.1

  IsLocked-other :
      (d d' : Db) (i : ℕ) (o : Option Task) (cs : List Change)
      → ((j : ℕ) → find j d' ≡ (if i == j then o else find j d))
      → has_id i (loaded cs) ≡ false
      → All (IsLocked d) cs
      → All (IsLocked d') cs
  IsLocked-other d d' i o [] e h a = tt
  IsLocked-other d d' i o (c ∷ cs) e h (here, later) = (
    (ground (arith, e c.0.id, here), here.1, here.2),
    IsLocked-other d d' i o cs e (ground arith) later,
  )

  commit_changes_lem :
      (now : ℕ) (cs : List Change) (d : Db)
      → All (IsLocked d) cs
      → Distinct (loaded cs)
      → (d' : Db) × (commit_changes now cs d ≡ ok d')
        × ((j : ℕ) → find j d' ≡ written now cs j (find j d))
  unfolding commit_changes
  commit_changes_lem now [] d a u = (d, refl, λ j. refl)
  commit_changes_lem now (c ∷ cs) d (here, later) (fresh, apart) =
      let (d₁, flushed, reads) = flush_found now c.0 c.1 c.0 d here.1 here.2 here.0 in
      let (d₂, committed, rest) =
        commit_changes_lem now cs d₁
          (IsLocked-other d d₁ c.0.id (some (merge now c.0 c.1 c.0)) cs reads fresh later) apart in
      (
        d₂,
        rw flushed committed,
        λ j. ground (
          arith,
          rest j,
          reads j,
          merge-locked now c.0 c.1 here.2,
          written_absent now cs j (some (touch now c.1)),
        ),
      )

  written-change_all :
      (f : Task → Task) (now : ℕ) (d : Db) (ts : List Task) (j : ℕ)
      → All (λ t. find t.id d ≡ some t) ts
      → written now (change_all f ts) j (find j d)
        ≡ (if has_id j ts then Option.map (λ t. touch now (f t)) (find j d) else find j d)
  written-change_all f now d [] j a = refl
  written-change_all f now d (t ∷ ts) j (h, a) =
      ground (arith, written-change_all f now d ts j a, nat_beq_iff t.id j)

  -- The commit of one change of every row that a query selected.
  pub commit-change_all :
      (f : Task → Task) (now : ℕ) (d : Db) (ts : List Task)
      → All (λ t. IsLocked d (t, f t)) ts
      → Distinct ts
      → (d' : Db) × (commit_changes now (change_all f ts) d ≡ ok d')
        × ((j : ℕ)
            → find j d'
              ≡ (if has_id j ts then Option.map (λ t. touch now (f t)) (find j d) else find j d))
  commit-change_all f now d ts a u =
      let (d', e, rows) =
        commit_changes_lem now (change_all f ts) d (All-change_all f ts a)
          (rw loaded-change_all u) in
      (d', e, λ j. rows j ∙ written-change_all f now d ts j (All_found f ts a))
    where
      All-change_all :
          (g : Task → Task) (us : List Task)
          → All (λ t. IsLocked d (t, g t)) us
          → All (IsLocked d) (change_all g us)
      All-change_all g [] b = tt
      All-change_all g (t ∷ us) (h, b) = (h, All-change_all g us b)

      All_found :
          (g : Task → Task) (us : List Task)
          → All (λ t. IsLocked d (t, g t)) us
          → All (λ t. find t.id d ≡ some t) us
      All_found g [] b = tt
      All_found g (t ∷ us) (h, b) = (h.0, All_found g us b)
