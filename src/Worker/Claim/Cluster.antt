-- ===== src/Worker/Claim/Cluster.antt =====
-- Several workers that claim tasks from one table at the same time: `claim_due_tasks` of
-- app/worker/processing.py as the two events that other transactions can fall between, the query that
-- locks its rows and the commit that writes and unlocks them.
use taskpilot_assessment.Prelude.{
  ℕ, suc, ◌+◌, ◌-◌, ◌≡◌, Bool, true, not, ◌&&◌, ◌||◌, Option, none, some, List, [], ◌==◌, nat_eq,
  if◌then◌else◌,
}
use taskpilot_assessment.Errors.{ok}
use taskpilot_assessment.Models.{Task, pending, status_eq}
use taskpilot_assessment.Database.{Database, has_id}
use taskpilot_assessment.Database.Changes.{commit_changes}
use taskpilot_assessment.Worker.Claim.{claim_each, due_tasks}

-- 1 where the row is pending.
abbrev pub pendings : Option Task → ℕ
pendings none = 0
pendings (some t) = if t.status == pending then 1 else 0

-- The table; the rows that a claim has locked; the tasks that each worker has selected and not yet
-- committed; how often each row has been claimed, and how often it was made pending.
pub record Cluster (S : Type 0) : Type 0 where
  pub db : S
  pub locked : ℕ → Bool
  pub holding : ℕ → List Task
  pub claims : ℕ → ℕ
  pub made : ℕ → ℕ

abbrev pub hold : ℕ → List Task → (ℕ → List Task) → ℕ → List Task
hold i ts f k = if k == i then ts else f k

abbrev pub lock : List Task → (ℕ → Bool) → ℕ → Bool
lock ts f j = f j || has_id j ts

abbrev pub unlock : List Task → (ℕ → Bool) → ℕ → Bool
unlock ts f j = f j && not (has_id j ts)

abbrev pub tally : List Task → (ℕ → ℕ) → ℕ → ℕ
tally ts f j = if has_id j ts then suc (f j) else f j

module _ (D : Database) where
  open D use {Db, find}

  pub data Step (c : Cluster Db) : Cluster Db → Type 0 where
    -- SELECT … FOR UPDATE SKIP LOCKED
    select :
        (i now limit : ℕ)
        → c.holding i ≡ []
        → Step c (record c {
          locked = lock (due_tasks D now limit c.locked c.db) c.locked;
          holding = hold i (due_tasks D now limit c.locked c.db) c.holding;
        })
    commit :
        (i now : ℕ) (d' : Db)
        → commit_changes D now (claim_each (c.holding i)) c.db ≡ ok d'
        → Step c (record c {
          db = d';
          locked = unlock (c.holding i) c.locked;
          holding = hold i [] c.holding;
          claims = tally (c.holding i) c.claims;
        })
    -- The worker is lost, and its transaction with it.
    rollback :
        (i : ℕ)
        → Step c
            (record c { locked = unlock (c.holding i) c.locked; holding = hold i [] c.holding })
    -- Any other transaction: it waits for locked rows, so it leaves them alone.
    other :
        (d' : Db)
        → ((j : ℕ) → c.locked j ≡ true → find j d' ≡ find j c.db)
        → Step c (record c {
          db = d';
          made = λ j. c.made j + (pendings (find j d') - pendings (find j c.db));
        })

  -- The workers begin on a table of which each pending row counts as made once.
  abbrev pub start : Db → Cluster Db
  start d = record {
    db = d;
    locked = λ j. Bool.false;
    holding = λ i. [];
    claims = λ j. 0;
    made = λ j. pendings (find j d);
  }

  pub data Run (c : Cluster Db) : Cluster Db → Type 0 where
    here : Run c c
    next : {b e : Cluster Db} → Run c b → Step b e → Run c e
