-- ===== src/TaskService/Memory.antt =====
-- Tables in memory that meet the laws of `Sqlite`: the tasks newest first, and the users by a function.
use taskpilot_assessment.Prelude.{
  ℕ, ◌≤◌, ◌^◌, ◌≡◌, refl, String, Bool, true, false, ◌||◌, Option, none, some, List, [], ◌∷◌, arith,
  All, ltb, leb, ◌==◌, nat_eq, nat_beq_iff, if◌then◌else◌, Bool-cases, inl, inr,
}
use taskpilot_assessment.Errors.{Result, ok, err, integrity_error, overflow_error}
use taskpilot_assessment.TaskService.Tables.{Row, has_row, DistinctRows, LatestFirst, Binds, Sqlite}

abbrev pub find_row : ℕ → List Row → Option Row
find_row j [] = none
find_row j (t ∷ ts) = if t.id == j then some t else find_row j ts

pub insert_row : Row → List Row → List Row
insert_row t [] = t ∷ []
insert_row t (u ∷ us) = if leb u.created_at t.created_at then t ∷ u ∷ us else u ∷ insert_row t us

pub has_row-find_row : (j : ℕ) (ts : List Row) → find_row j ts ≡ none → has_row j ts ≡ false
has_row-find_row j [] h = refl
has_row-find_row j (t ∷ ts) h = ground (arith, has_row-find_row j ts)

pub find_row-has_row :
    (j : ℕ) (ts : List Row) (t : Row) → find_row j ts ≡ some t → (has_row j ts ≡ true) × (t.id ≡ j)
find_row-has_row j [] t h = ground arith
find_row-has_row j (u ∷ ts) t h = ground (arith, find_row-has_row j ts t, nat_beq_iff u.id j)

pub absent-find_row : (j : ℕ) (ts : List Row) → has_row j ts ≡ false → find_row j ts ≡ none
absent-find_row j [] h = refl
absent-find_row j (t ∷ ts) h = ground (arith, absent-find_row j ts)

pub find_row-insert_row :
    (j : ℕ) (t : Row) (ts : List Row)
    → has_row t.id ts ≡ false
    → find_row j (insert_row t ts) ≡ (if t.id == j then some t else find_row j ts)
unfolding insert_row
find_row-insert_row j t [] h = refl
find_row-insert_row j t (u ∷ us) h = ground (
  arith,
  find_row-insert_row j t us,
  nat_beq_iff t.id j,
  nat_beq_iff u.id j,
  nat_beq_iff u.id t.id,
)

pub has_row-insert_row :
    (j : ℕ) (t : Row) (ts : List Row) → has_row j (insert_row t ts) ≡ (t.id == j || has_row j ts)
unfolding insert_row
has_row-insert_row j t [] = refl
has_row-insert_row j t (u ∷ us) = ground (arith, has_row-insert_row j t us)

pub DistinctRows-insert_row :
    (t : Row) (ts : List Row)
    → has_row t.id ts ≡ false
    → DistinctRows ts
    → DistinctRows (insert_row t ts)
unfolding insert_row
DistinctRows-insert_row t [] h d = (refl, tt)
DistinctRows-insert_row t (u ∷ us) h (fresh, d) = ground (
  arith,
  DistinctRows-insert_row t us,
  has_row-insert_row u.id t us,
  nat_beq_iff t.id u.id,
  nat_beq_iff u.id t.id,
)

pub All-le-insert_row :
    (n : ℕ) (t : Row) (ts : List Row)
    → t.created_at ≤ n
    → All (λ u. u.created_at ≤ n) ts
    → All (λ u. u.created_at ≤ n) (insert_row t ts)
unfolding insert_row
All-le-insert_row n t [] h a = (h, tt)
All-le-insert_row n t (u ∷ us) h (k, a) = ground (arith, All-le-insert_row n t us h a)

pub All-le_trans :
    (m n : ℕ) (ts : List Row)
    → m ≤ n
    → All (λ u. u.created_at ≤ m) ts
    → All (λ u. u.created_at ≤ n) ts
All-le_trans m n [] h a = tt
All-le_trans m n (u ∷ us) h (k, a) = (omega arith, All-le_trans m n us h a)

pub LatestFirst-insert_row :
    (t : Row) (ts : List Row) → LatestFirst ts → LatestFirst (insert_row t ts)
unfolding insert_row
LatestFirst-insert_row t [] a = (tt, tt)
LatestFirst-insert_row t (u ∷ us) (h, a) = elim (Bool-cases (leb u.created_at t.created_at)) [
  | inl before ↦
      rw before ((ground arith, All-le_trans u.created_at t.created_at us (ground arith) h), (h, a))
  | inr after ↦
      rw after (All-le-insert_row u.created_at t us (ground arith) h, LatestFirst-insert_row t us a)
]

pub record Store : Type 0 where
  pub rows : List Row
  pub users : ℕ → Option String
  pub distinct : DistinctRows rows
  pub ordered : LatestFirst rows

abbrev pub binds : Option ℕ → Bool
binds none = true
binds (some n) = ltb n (2 ^ 63)

abbrev pub insert_new :
    (t : Row) (d : Store) (o : Option Row) → find_row t.id d.rows ≡ o → Result Store
insert_new t d (some u) e = err integrity_error
insert_new t d none e = ok (record d {
  rows = insert_row t d.rows;
  distinct = DistinctRows-insert_row t d.rows (has_row-find_row t.id d.rows e) d.distinct;
  ordered = LatestFirst-insert_row t d.rows d.ordered;
})

abbrev pub insert : Row → Store → Result Store
insert t d =
    if binds t.user_id then insert_new t d (find_row t.id d.rows) refl else err overflow_error

pub insert_new-taken :
    (t u : Row) (d : Store) (o : Option Row) (e : find_row t.id d.rows ≡ o)
    → o ≡ some u
    → insert_new t d o e ≡ err integrity_error
insert_new-taken t u d none e h = ground arith
insert_new-taken t u d (some v) e h = refl

pub insert_new-free :
    (t : Row) (d : Store) (o : Option Row) (e : find_row t.id d.rows ≡ o)
    → o ≡ none
    → (d' : Store) × (insert_new t d o e ≡ ok d')
      × ((j : ℕ) → find_row j d'.rows ≡ (if t.id == j then some t else find_row j d.rows))
      × ((i : ℕ) → d'.users i ≡ d.users i)
insert_new-free t d (some u) e h = ground arith
insert_new-free t d none e h =
    (_, refl, λ j. find_row-insert_row j t d.rows (has_row-find_row t.id d.rows e), λ i. refl)

pub Binds-binds : (o : Option ℕ) → Binds o → binds o ≡ true
Binds-binds none h = refl
Binds-binds (some n) h = ground arith

pub binds-large : (o : Option ℕ) (n : ℕ) → o ≡ some n → 2 ^ 63 ≤ n → binds o ≡ false
binds-large none n h k = ground arith
binds-large (some m) n h k = ground arith

pub All-find_row_self : (ts : List Row) → DistinctRows ts → All (λ t. find_row t.id ts ≡ some t) ts
All-find_row_self ts d = go ts ts (λ j t h. h) d
  where
    go :
        (all us : List Row)
        → ((j : ℕ) (t : Row) → find_row j us ≡ some t → find_row j all ≡ some t)
        → DistinctRows us
        → All (λ t. find_row t.id all ≡ some t) us
    go all [] into d' = tt
    go all (u ∷ us) into (fresh, d') = (
      into u.id u (ground (arith, nat_beq_iff u.id u.id)),
      go all us (λ j t h. into j t (ground (arith, nat_beq_iff u.id j, find_row-has_row j us t h)))
          d',
    )

pub find_task-insert :
    (t : Row) (d : Store)
    → find_row t.id d.rows ≡ none
    → Binds t.user_id
    → (d' : Store) × (insert t d ≡ ok d')
      × ((j : ℕ) → find_row j d'.rows ≡ (if t.id == j then some t else find_row j d.rows))
      × ((i : ℕ) → d'.users i ≡ d.users i)
find_task-insert t d free b =
    let (d', e, rows, users) = insert_new-free t d (find_row t.id d.rows) refl free in
    (d', rw (Binds-binds t.user_id b) e, rows, users)

abbrev pub memory : Sqlite
memory = record {
  Db = Store;
  find_task = λ j d. find_row j d.rows;
  find_task-id = λ i d t found. (find_row-has_row i d.rows t found).1;
  find_user = λ i d. d.users i;
  insert = insert;
  insert_taken = λ t u d found b.
      rw (Binds-binds t.user_id b) (insert_new-taken t u d (find_row t.id d.rows) refl found);
  insert_overflow = λ t n d e large. rw (binds-large t.user_id n e large) refl;
  insert_free = find_task-insert;
  select_tasks = λ d. d.rows;
  select_sound = λ d. All-find_row_self d.rows d.distinct;
  select_distinct = λ d. d.distinct;
  select_ordered = λ d. d.ordered;
  select_complete = λ d t found. (find_row-has_row t.id d.rows t found).0;
}
