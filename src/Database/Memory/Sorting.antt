-- ===== src/Database/Memory/Sorting.antt =====
-- Filtering, sorting and cutting lists of rows.
use taskpilot_assessment.Prelude.{
  ℕ, zero, suc, ◌≤◌, ◌≡◌, refl, ap, true, false, Bool, ◌||◌, List, [], ◌∷◌, arith, All, length,
  take, filter, ◌==◌, nat_eq, nat_beq_iff, if◌then◌else◌, Bool-cases, inl, inr,
}
use taskpilot_assessment.Models.{Task}
use taskpilot_assessment.Database.{has_id, Distinct}

module _ (P : Task → Type 0) where
  pub All-filter : (p : Task → Bool) (ts : List Task) → All P ts → All P (filter p ts)
  All-filter p [] a = tt
  All-filter p (t ∷ ts) (h, a) = ground (arith, All-filter p ts a)

  pub All-take : (n : ℕ) (ts : List Task) → All P ts → All P (take n ts)
  All-take zero ts a = tt
  All-take (suc n) [] a = tt
  All-take (suc n) (t ∷ ts) (h, a) = (h, All-take n ts a)

pub has_id-take : (j n : ℕ) (ts : List Task) → has_id j ts ≡ false → has_id j (take n ts) ≡ false
has_id-take j zero ts h = refl
has_id-take j (suc n) [] h = refl
has_id-take j (suc n) (t ∷ ts) h = ground (arith, has_id-take j n ts)

pub has_id-filter_absent :
    (p : Task → Bool) (j : ℕ) (ts : List Task)
    → has_id j ts ≡ false
    → has_id j (filter p ts) ≡ false
has_id-filter_absent p j [] h = refl
has_id-filter_absent p j (t ∷ ts) h = ground (arith, has_id-filter_absent p j ts)

pub Distinct-filter : (p : Task → Bool) (ts : List Task) → Distinct ts → Distinct (filter p ts)
Distinct-filter p [] u = tt
Distinct-filter p (t ∷ ts) (h, u) =
    ground (arith, Distinct-filter p ts u, has_id-filter_absent p t.id ts h)

pub Distinct-take : (n : ℕ) (ts : List Task) → Distinct ts → Distinct (take n ts)
Distinct-take zero ts u = tt
Distinct-take (suc n) [] u = tt
Distinct-take (suc n) (t ∷ ts) (h, u) = (has_id-take t.id n ts h, Distinct-take n ts u)

pub length-take_le : (n : ℕ) (ts : List Task) → length (take n ts) ≤ n
length-take_le zero ts = omega arith
length-take_le (suc n) [] = omega arith
length-take_le (suc n) (t ∷ ts) = omega (arith, length-take_le n ts)

-- Insertion sort by a test that the first row may stand before the second.
module _ (before : Task → Task → Bool) where
  pub insert_row : Task → List Task → List Task
  insert_row t [] = t ∷ []
  insert_row t (u ∷ us) = if before t u then t ∷ u ∷ us else u ∷ insert_row t us

  unfoldable pub sort_rows : List Task → List Task
  unfolding insert_row
  sort_rows [] = []
  sort_rows (t ∷ ts) = insert_row t (sort_rows ts)

  abbrev pub InOrder : List Task → Type 0
  InOrder [] = Unit
  InOrder (t ∷ ts) = All (λ u. before t u ≡ true) ts × InOrder ts

  has_id-insert_row :
      (j : ℕ) (t : Task) (us : List Task) → has_id j (insert_row t us) ≡ (t.id == j || has_id j us)
  unfolding insert_row
  has_id-insert_row j t [] = ground arith
  has_id-insert_row j t (u ∷ us) = ground (arith, has_id-insert_row j t us)

  pub has_id-sort_rows : (j : ℕ) (ts : List Task) → has_id j (sort_rows ts) ≡ has_id j ts
  unfolding sort_rows
  has_id-sort_rows j [] = refl
  has_id-sort_rows j (t ∷ ts) =
      ground (arith, has_id-sort_rows j ts, has_id-insert_row j t (sort_rows ts))

  module _ (P : Task → Type 0) where
    All-insert_row : (t : Task) (us : List Task) → P t → All P us → All P (insert_row t us)
    unfolding insert_row
    All-insert_row t [] h a = (h, a)
    All-insert_row t (u ∷ us) h (k, a) = ground (arith, All-insert_row t us h a)

    pub All-sort_rows : (ts : List Task) → All P ts → All P (sort_rows ts)
    unfolding sort_rows
    All-sort_rows [] a = tt
    All-sort_rows (t ∷ ts) (h, a) = All-insert_row t (sort_rows ts) h (All-sort_rows ts a)

  Distinct-insert_row :
      (t : Task) (us : List Task)
      → has_id t.id us ≡ false
      → Distinct us
      → Distinct (insert_row t us)
  unfolding insert_row
  Distinct-insert_row t [] h u = (refl, tt)
  Distinct-insert_row t (x ∷ us) h (k, u) = ground (
    arith,
    Distinct-insert_row t us,
    has_id-insert_row x.id t us,
    nat_beq_iff t.id x.id,
    nat_beq_iff x.id t.id,
  )

  pub Distinct-sort_rows : (ts : List Task) → Distinct ts → Distinct (sort_rows ts)
  unfolding sort_rows
  Distinct-sort_rows [] u = tt
  Distinct-sort_rows (t ∷ ts) (h, u) =
      Distinct-insert_row t (sort_rows ts) (ground (arith, has_id-sort_rows t.id ts))
        (Distinct-sort_rows ts u)

  module _ (total : (a b : Task) → before a b ≡ false → before b a ≡ true)
      (before_trans : (a b c : Task)
        → before a b ≡ true
        → before b c ≡ true
        → before a c ≡ true) where
    All-before :
        (a b : Task) (us : List Task)
        → before a b ≡ true
        → All (λ u. before b u ≡ true) us
        → All (λ u. before a u ≡ true) us
    All-before a b [] h k = tt
    All-before a b (u ∷ us) h (k, ks) = (before_trans a b u h k, All-before a b us h ks)

    InOrder-insert_row : (t : Task) (us : List Task) → InOrder us → InOrder (insert_row t us)
    unfolding insert_row
    InOrder-insert_row t [] s = (tt, tt)
    InOrder-insert_row t (u ∷ us) (a, s) = elim (Bool-cases (before t u)) [
      | inl first ↦ rw first ((first, All-before t u us first a), (a, s))
      | inr after ↦ rw after (
        All-insert_row (λ x. before u x ≡ true) t us (total t u after) a,
        InOrder-insert_row t us s,
      )
    ]

    pub InOrder-sort_rows : (ts : List Task) → InOrder (sort_rows ts)
    unfolding sort_rows
    InOrder-sort_rows [] = tt
    InOrder-sort_rows (t ∷ ts) = InOrder-insert_row t (sort_rows ts) (InOrder-sort_rows ts)

  -- What a cut leaves out comes after all that it keeps.
  pub take_complete :
      (n : ℕ) (ts : List Task) (t : Task)
      → InOrder ts
      → All (λ u. u.id ≡ t.id → u ≡ t) ts
      → has_id t.id ts ≡ true
      → has_id t.id (take n ts) ≡ false
      → (length (take n ts) ≡ n) × All (λ u. before u t ≡ true) (take n ts)
  take_complete zero ts t s same h cut = (refl, tt)
  take_complete (suc n) [] t s same h cut = ground arith
  take_complete (suc n) (u ∷ us) t (a, s) (e, same) h cut =
      let other : (u.id == t.id) ≡ false = ground arith in
      let later : has_id t.id us ≡ true = ground arith in
      let (full, older) = take_complete n us t s same later (ground arith) in
      (ap suc full, (All-has_id_before u t us a same later, older))
    where
      All-has_id_before :
          (u t : Task) (us : List Task)
          → All (λ x. before u x ≡ true) us
          → All (λ x. x.id ≡ t.id → x ≡ t) us
          → has_id t.id us ≡ true
          → before u t ≡ true
      All-has_id_before u t [] a same h = ground arith
      All-has_id_before u t (x ∷ xs) (b, a) (e, same) h = elim (Bool-cases (x.id == t.id)) [
        | inl here ↦ rw (e ((nat_beq_iff x.id t.id).0 here)) at b
        | inr there ↦ All-has_id_before u t xs a same (ground arith)
      ]
