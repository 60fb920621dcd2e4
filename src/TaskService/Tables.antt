-- ===== src/TaskService/Tables.antt =====
-- The two tables of task_service_fixed.py behind the statements that it issues. SQLite is not part of
-- the repository: its documented behaviour is stated as laws. `TaskService.Memory` meets them all.
use taskpilot_assessment.Prelude.{
  ℕ, ◌≤◌, ◌<◌, ◌^◌, ◌≡◌, String, Bool, true, false, ◌||◌, Option, none, some, List, [], ◌∷◌, All,
  ◌==◌, nat_eq, if◌then◌else◌,
}
use taskpilot_assessment.Errors.{Result, ok, err, integrity_error, overflow_error}
use taskpilot_assessment.Json.{Fields}

-- A row of the table `tasks`.
pub record Row : Type 0 where
  pub id : ℕ
  pub title : String
  pub payload : Fields
  pub user_id : Option ℕ
  pub status : String
  pub created_at : ℕ

abbrev pub has_row : ℕ → List Row → Bool
has_row i [] = false
has_row i (t ∷ ts) = t.id == i || has_row i ts

abbrev pub DistinctRows : List Row → Type 0
DistinctRows [] = Unit
DistinctRows (t ∷ ts) = (has_row t.id ts ≡ false) × DistinctRows ts

abbrev pub LatestFirst : List Row → Type 0
LatestFirst [] = Unit
LatestFirst (t ∷ ts) = All (λ u. u.created_at ≤ t.created_at) ts × LatestFirst ts

-- An INTEGER column takes 64-bit numbers; a larger one cannot be bound.
abbrev pub Binds : Option ℕ → Type 0
Binds none = Unit
Binds (some n) = n < 2 ^ 63

pub record Sqlite : Type 1 where
  pub Db : Type 0
  pub find_task : ℕ → Db → Option Row
  pub find_task-id : (i : ℕ) (d : Db) (t : Row) → find_task i d ≡ some t → t.id ≡ i
  pub find_user : ℕ → Db → Option String
  -- INSERT INTO tasks, and the commit. A user that is not there is no error: foreign keys are off.
  pub insert : Row → Db → Result Db
  pub insert_taken :
      (t u : Row) (d : Db)
      → find_task t.id d ≡ some u
      → Binds t.user_id
      → insert t d ≡ err integrity_error
  pub insert_overflow :
      (t : Row) (n : ℕ) (d : Db) → t.user_id ≡ some n → 2 ^ 63 ≤ n → insert t d ≡ err overflow_error
  pub insert_free :
      (t : Row) (d : Db)
      → find_task t.id d ≡ none
      → Binds t.user_id
      → (d' : Db) × (insert t d ≡ ok d')
        × ((j : ℕ) → find_task j d' ≡ (if t.id == j then some t else find_task j d))
        × ((i : ℕ) → find_user i d' ≡ find_user i d)
  -- SELECT … FROM tasks ORDER BY created_at DESC
  pub select_tasks : Db → List Row
  pub select_sound : (d : Db) → All (λ t. find_task t.id d ≡ some t) (select_tasks d)
  pub select_distinct : (d : Db) → DistinctRows (select_tasks d)
  pub select_ordered : (d : Db) → LatestFirst (select_tasks d)
  pub select_complete :
      (d : Db) (t : Row) → find_task t.id d ≡ some t → has_row t.id (select_tasks d) ≡ true
