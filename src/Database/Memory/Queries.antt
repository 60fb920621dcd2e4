-- ===== src/Database/Memory/Queries.antt =====
-- The table, and its queries with their laws.
use taskpilot_assessment.Prelude.{
  ℕ, ◌≤◌, ◌<◌, ◌≡◌, ◌∙◌, true, false, Bool, not, ◌&&◌, Option, some, List, [], ◌∷◌, arith, All,
  filter, length, take, drop, leb, ◌==◌, nat_eq, nat_beq_iff,
}
use taskpilot_assessment.Models.{Task, status_eq, option_eq}
use taskpilot_assessment.Database.{has_id, Distinct, NewestFirst}
use taskpilot_assessment.Database.Rows.{All-has_id}
use taskpilot_assessment.Database.Memory.Sorting.{
  All-filter, All-take, Distinct-filter, Distinct-take, length-take_le, sort_rows, InOrder,
  has_id-sort_rows, All-sort_rows, Distinct-sort_rows, InOrder-sort_rows, take_complete,
}
use taskpilot_assessment.Database.Memory.Rows.{
  find_row, DistinctKeys, All-found, All-zip, All-map, filter-true, has_id-filter, delete_row,
}

pub record Table : Type 0 where
  pub rows : List Task
  pub distinct : Distinct rows
  pub keyed : DistinctKeys rows

abbrev pub empty_table : Table
empty_table = record { rows = []; distinct = tt; keyed = tt }

abbrev pub find : ℕ → Table → Option Task
find j d = find_row j d.rows

-- SELECT … WHERE p ORDER BY …
module _ (before : Task → Task → Bool) (p : Task → Bool) where
  abbrev pub matching : Table → List Task
  matching d = sort_rows before (filter p d.rows)

  pub matching_sound : (d : Table) → All (λ t. (find t.id d ≡ some t) × (p t ≡ true)) (matching d)
  matching_sound d =
      All-sort_rows before (λ t. (find t.id d ≡ some t) × (p t ≡ true)) (filter p d.rows)
        (All-zip (λ t. find t.id d ≡ some t) (λ t. p t ≡ true) (filter p d.rows)
          (All-filter (λ t. find t.id d ≡ some t) p d.rows (All-found d.rows d.distinct))
          (filter-true p d.rows))

  pub matching-Distinct : (d : Table) → Distinct (matching d)
  matching-Distinct d =
      Distinct-sort_rows before (filter p d.rows) (Distinct-filter p d.rows d.distinct)

  pub matching_complete :
      (d : Table) (t : Task) → find t.id d ≡ some t → p t ≡ true → has_id t.id (matching d) ≡ true
  matching_complete d t found h =
      has_id-sort_rows before t.id (filter p d.rows) ∙ has_id-filter p d.rows t found h

-- FOR UPDATE SKIP LOCKED
abbrev pub unlocked : (Task → Bool) → (ℕ → Bool) → Task → Bool
unlocked p locked t = p t && not (locked t.id)

abbrev pub by_key : (Task → ℕ) → Task → Task → Bool
by_key key a b = leb (key a) (key b)

abbrev pub select_for_update : (Task → Bool) → (Task → ℕ) → ℕ → (ℕ → Bool) → Table → List Task
select_for_update p key n locked d = take n (matching (by_key key) (unlocked p locked) d)

module _ (p : Task → Bool) (key : Task → ℕ) (n : ℕ) (locked : ℕ → Bool) (d : Table) where
  pub select_sound :
      All
        (λ t. (find t.id d ≡ some t) × (p t ≡ true) × (locked t.id ≡ false))
        (select_for_update p key n locked d)
  select_sound =
      All-take (λ t. (find t.id d ≡ some t) × (p t ≡ true) × (locked t.id ≡ false)) n
        (matching (by_key key) (unlocked p locked) d)
        (All-map (λ t. (find t.id d ≡ some t) × (unlocked p locked t ≡ true))
          (λ t. (find t.id d ≡ some t) × (p t ≡ true) × (locked t.id ≡ false))
          (λ t h. (h.0, ground arith, ground arith)) (matching (by_key key) (unlocked p locked) d)
          (matching_sound (by_key key) (unlocked p locked) d))

  pub select-Distinct : Distinct (select_for_update p key n locked d)
  select-Distinct =
      Distinct-take n (matching (by_key key) (unlocked p locked) d)
        (matching-Distinct (by_key key) (unlocked p locked) d)

  pub select_limit : length (select_for_update p key n locked d) ≤ n
  select_limit = length-take_le n (matching (by_key key) (unlocked p locked) d)

  All-leb :
      (t : Task) (ts : List Task)
      → All (λ u. by_key key u t ≡ true) ts
      → All (λ u. key u ≤ key t) ts
  All-leb t = All-map (λ u. by_key key u t ≡ true) (λ u. key u ≤ key t) (λ u h. ground arith)

  same_row :
      (t : Task)
      → find t.id d ≡ some t
      → All (λ u. u.id ≡ t.id → u ≡ t) (matching (by_key key) (unlocked p locked) d)
  same_row t found =
      All-map (λ u. (find u.id d ≡ some u) × (unlocked p locked u ≡ true))
        (λ u. u.id ≡ t.id → u ≡ t) (λ u h e. cc (h.0, e, found))
        (matching (by_key key) (unlocked p locked) d)
        (matching_sound (by_key key) (unlocked p locked) d)

  pub select_complete :
      (t : Task)
      → find t.id d ≡ some t
      → p t ≡ true
      → locked t.id ≡ false
      → has_id t.id (select_for_update p key n locked d) ≡ false
      → (length (select_for_update p key n locked d) ≡ n)
        × All (λ u. key u ≤ key t) (select_for_update p key n locked d)
  select_complete t found h free left =
      let (full, older) =
        take_complete (by_key key) n (matching (by_key key) (unlocked p locked) d) t
          (InOrder-sort_rows (by_key key) (λ a b e. ground arith) (λ a b c e e'. ground arith)
            (filter (unlocked p locked) d.rows))
          (same_row t found)
          (matching_complete (by_key key) (unlocked p locked) d t found (ground arith)) left in
      (full, All-leb t (select_for_update p key n locked d) older)

-- ORDER BY created_at DESC
abbrev pub newer : Task → Task → Bool
newer a b = leb b.created_at a.created_at

abbrev pub page : (Task → Bool) → ℕ → ℕ → Table → List Task
page p limit offset d = take limit (drop offset (matching newer p d))

NewestFirst-of_InOrder : (ts : List Task) → InOrder newer ts → NewestFirst ts
NewestFirst-of_InOrder [] s = tt
NewestFirst-of_InOrder (t ∷ ts) (a, s) = (
  All-map (λ u. newer t u ≡ true) (λ u. u.created_at ≤ t.created_at) (λ u h. ground arith) ts a,
  NewestFirst-of_InOrder ts s,
)

pub matching-NewestFirst : (p : Task → Bool) (d : Table) → NewestFirst (matching newer p d)
matching-NewestFirst p d =
    NewestFirst-of_InOrder (matching newer p d) (
      InOrder-sort_rows newer (λ a b e. ground arith) (λ a b c e e'. ground arith)
        (filter p d.rows))

abbrev pub count : (Task → Bool) → Table → ℕ
count p d = length (filter p d.rows)

has_id-delete_row :
    (i j : ℕ) (us : List Task)
    → has_id j us ≡ true
    → (i == j) ≡ false
    → has_id j (delete_row i us) ≡ true
has_id-delete_row i j [] h e = cc
has_id-delete_row i j (u ∷ us) h e =
    ground (arith, has_id-delete_row i j us, nat_beq_iff u.id i, nat_beq_iff u.id j)

length-delete_row : (i : ℕ) (us : List Task) → length (delete_row i us) ≤ length us
length-delete_row i [] = omega arith
length-delete_row i (u ∷ us) = ground (arith, length-delete_row i us)

length-delete_row_lt :
    (i : ℕ) (us : List Task) → has_id i us ≡ true → length (delete_row i us) < length us
length-delete_row_lt i [] h = cc
length-delete_row_lt i (u ∷ us) h =
    ground (arith, length-delete_row_lt i us, length-delete_row i us)

length_mono :
    (ts us : List Task)
    → Distinct ts
    → ((j : ℕ) → has_id j ts ≡ true → has_id j us ≡ true)
    → length ts ≤ length us
length_mono [] us u h = omega arith
length_mono (t ∷ ts) us (f, u) h =
    let here : has_id t.id us ≡ true = h t.id (ground (arith, nat_beq_iff t.id t.id)) in
    let rest : length ts ≤ length (delete_row t.id us) =
      length_mono ts (delete_row t.id us) u (λ j k.
        has_id-delete_row t.id j us (h j (ground arith)) (ground (arith, nat_beq_iff t.id j))) in
    omega (arith, length-delete_row_lt t.id us here)

module _ (p : Task → Bool) (d : Table) where
  abbrev IsMatch : Task → Type 0
  IsMatch t = (find t.id d ≡ some t) × (p t ≡ true)

  pub count_lem :
      (ts : List Task)
      → Distinct ts
      → All IsMatch ts
      → ((t : Task) → find t.id d ≡ some t → p t ≡ true → has_id t.id ts ≡ true)
      → count p d ≡ length ts
  count_lem ts u a c =
      let all : All IsMatch (filter p d.rows) =
        All-zip (λ t. find t.id d ≡ some t) (λ t. p t ≡ true) (filter p d.rows)
          (All-filter (λ t. find t.id d ≡ some t) p d.rows (All-found d.rows d.distinct))
          (filter-true p d.rows) in
      let to : length ts ≤ count p d = length_mono ts (filter p d.rows) u (λ j h.
        let (t, e, (found, m)) = All-has_id IsMatch j ts a h in
        rw e at (has_id-filter p d.rows t found m)) in
      let from : count p d ≤ length ts =
        length_mono (filter p d.rows) ts (Distinct-filter p d.rows d.distinct) (λ j h.
          let (t, e, (found, m)) = All-has_id IsMatch j (filter p d.rows) all h in
          rw e at (c t found m)) in
      omega arith
