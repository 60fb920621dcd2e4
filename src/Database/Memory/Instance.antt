-- ===== src/Database/Memory/Instance.antt =====
-- The table's statements that write, and the table as an implementation of `Database`.
use mathlib.Core.Option
use taskpilot_assessment.Prelude.{
  ℕ, String, ◌≡◌, ◌≢◌, ◌∙◌, refl, ap, true, false, Bool, not, Option, none, some, ◌∷◌, arith, ◌==◌,
  nat_eq, nat_beq_iff, if◌then◌else◌, Bool-cases, inl, inr,
}
use taskpilot_assessment.Errors.{Result, ok, err, stale_data_error, integrity_error, dbapi_error}
use taskpilot_assessment.Models.{Task}
use taskpilot_assessment.Models.Columns.{is_storable}
use taskpilot_assessment.Database.{Database, has_id, SameIdentity, merge}
use taskpilot_assessment.Database.Memory.Sorting.{Distinct-filter}
use taskpilot_assessment.Database.Memory.Rows.{
  find_row, find_key, key_taken, find_row-id, has_id_of_none, delete_row, find_row-delete_row,
  update_row, find_row-update_row, Distinct-update_row, DistinctKeys-update_row,
  DistinctKeys-filter, find_key_sound, find_key_complete, key_taken-find_key, key_taken_of_found,
}
use taskpilot_assessment.Database.Memory.Queries.{
  Table, find, select_for_update, select_sound, select-Distinct, select_limit, select_complete,
  count, count_lem, page, newer, matching, matching-NewestFirst, matching-Distinct, matching_sound,
  matching_complete,
}

abbrev session_get : Option Task → ℕ → Table → Option Task
session_get none i d = find i d
session_get (some t) i d = some t

-- UPDATE
abbrev update : ℕ → Task → Task → Table → Table
update now l c d = record {
  rows = update_row l.id (merge now l c) d.rows;
  distinct = Distinct-update_row l.id (merge now l c) (λ t. (refl, refl)) d.rows d.distinct;
  keyed = DistinctKeys-update_row l.id (merge now l c) (λ t. (refl, refl)) d.rows d.keyed;
}

abbrev flush : ℕ → Task → Task → Table → Result Table
flush now l c d = elim (find l.id d) [
  | none ↦ err stale_data_error
  | some _ ↦ ok (update now l c d)
]

pub flush_found :
    (now : ℕ) (l c row : Task) (d : Table)
    → l.status ≢ c.status
    → SameIdentity l c
    → find l.id d ≡ some row
    → (d' : Table) × (flush now l c d ≡ ok d')
      × ((j : ℕ) → find j d' ≡ (if l.id == j then some (merge now l c row) else find j d))
flush_found now l c row d h k found = (
  update now l c d,
  rw (found, flush),
  λ j. find_row-update_row l.id (merge now l c) (λ t. (refl, refl)) j d.rows ∙ at_row j,
)
  where
    at_row :
        (j : ℕ)
        → (if l.id == j then Option.map (merge now l c) (find j d) else find j d)
          ≡ (if l.id == j then some (merge now l c row) else find j d)
    at_row j = ground (arith, nat_beq_iff l.id j)

-- What the key `j` reads after a statement that succeeded.
abbrev result_row : ℕ → Result Table → Option Task
result_row j (ok d) = find j d
result_row j (err e) = none

-- INSERT
abbrev insert_if :
    (t : Task) (d : Table) (b k : Bool)
    → has_id t.id d.rows ≡ b
    → key_taken t.idempotency_key d.rows ≡ k
    → Result Table
insert_if t d false false e f =
    ok (record { rows = t ∷ d.rows; distinct = (e, d.distinct); keyed = (f, d.keyed) })
insert_if t d _ _ e f = err integrity_error

pub insert_if_free :
    (t : Task) (d : Table) (b k : Bool) (e : has_id t.id d.rows ≡ b)
    (f : key_taken t.idempotency_key d.rows ≡ k)
    → b ≡ false
    → k ≡ false
    → (d' : Table) × (insert_if t d b k e f ≡ ok d')
insert_if_free t d false false e f x y =
    (record { rows = t ∷ d.rows; distinct = (e, d.distinct); keyed = (f, d.keyed) }, refl)
insert_if_free t d false true e f x y = cc
insert_if_free t d true k e f x y = cc

pub insert_if_stores :
    (t : Task) (d d' : Table) (b k : Bool) (e : has_id t.id d.rows ≡ b)
    (f : key_taken t.idempotency_key d.rows ≡ k)
    → insert_if t d b k e f ≡ ok d'
    → (j : ℕ) → find j d' ≡ (if t.id == j then some t else find j d)
unfolding find_row
insert_if_stores t d d' false false e f x j = cc (ap (λ (r : Result Table). result_row j r) x)
insert_if_stores t d d' false true e f x j = cc
insert_if_stores t d d' true k e f x j = cc

pub insert_if_taken :
    (t : Task) (d : Table) (b k : Bool) (e : has_id t.id d.rows ≡ b)
    (f : key_taken t.idempotency_key d.rows ≡ k)
    → k ≡ true
    → insert_if t d b k e f ≡ err integrity_error
insert_if_taken t d false false e f x = cc
insert_if_taken t d false true e f x = refl
insert_if_taken t d true k e f x = refl

abbrev insert : Task → Table → Result Table
insert t d =
    if is_storable t
    then insert_if t d (has_id t.id d.rows) (key_taken t.idempotency_key d.rows) refl refl
    else err dbapi_error

pub insert_stores :
    (t : Task) (d d' : Table)
    → insert t d ≡ ok d'
    → (j : ℕ) → find j d' ≡ (if t.id == j then some t else find j d)
insert_stores t d d' e = elim (Bool-cases (is_storable t)) [
  | inl h ↦
      insert_if_stores t d d' (has_id t.id d.rows) (key_taken t.idempotency_key d.rows) refl refl
        (rw h at e)
  | inr h ↦ cc (rw h at e)
]

pub free_key :
    (o : Option String) (d : Table)
    → ((k : String) → o ≡ some k → find_key k d.rows ≡ none)
    → key_taken o d.rows ≡ false
free_key none d h = refl
free_key (some k) d h = key_taken-find_key k d.rows (h k refl)

-- DELETE
abbrev delete : ℕ → Table → Table
delete i d = record {
  rows = delete_row i d.rows;
  distinct = Distinct-filter (λ t. not (t.id == i)) d.rows d.distinct;
  keyed = DistinctKeys-filter (λ t. not (t.id == i)) d.rows d.keyed;
}

-- The table meets every law of the interface.
abbrev pub memory : Database
memory = record {
  Db = Table;
  find = find;
  find-id = λ i d. find_row-id i d.rows;
  session_get = session_get;
  session_get-none = λ i d. refl;
  session_get-some = λ t i d. refl;
  select_for_update = select_for_update;
  select_sound = select_sound;
  select_distinct = select-Distinct;
  select_limit = select_limit;
  select_complete = select_complete;
  flush = flush;
  flush_missing = λ now l c d h found. rw (found, flush);
  flush_found = flush_found;
  find_by_key = λ k d. find_key k d.rows;
  find_by_key_sound = λ k d t. find_key_sound k d.rows t d.distinct;
  find_by_key_complete = λ k d i t. find_key_complete k d.rows i t d.keyed;
  insert = insert;
  insert_unstorable = λ t d h. rw h refl;
  insert_taken = λ t u k d h e found. rw h (
      insert_if_taken t d (has_id t.id d.rows) (key_taken t.idempotency_key d.rows) refl refl
        (rw e (key_taken_of_found k d.rows u found)));
  insert_free = λ t d h fresh free titled. rw h (
      insert_if_free t d (has_id t.id d.rows) (key_taken t.idempotency_key d.rows) refl refl
        (has_id_of_none t.id d.rows fresh) (free_key t.idempotency_key d free));
  insert_stores = insert_stores;
  count = count;
  count_lem = count_lem;
  page = page;
  page_lem = λ p limit offset d. (
    matching newer p d,
    refl,
    matching-NewestFirst p d,
    matching-Distinct newer p d,
    matching_sound newer p d,
    matching_complete newer p d,
  );
  delete = delete;
  delete_lem = λ i j d. find_row-delete_row i j d.rows;
}
