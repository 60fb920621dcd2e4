-- ===== src/Database/Counting.antt =====
-- Counting the rows of a query by lists of them.
use taskpilot_assessment.Prelude.{
  ℕ, ◌+◌, ◌≤◌, ◌≡◌, sym, true, false, Bool, some, List, [], ◌∷◌, ◌++◌, arith, All, length, ◌==◌,
  nat_eq, nat_beq_iff, if◌then◌else◌,
}
use taskpilot_assessment.Models.{Task}
use taskpilot_assessment.Database.{Database, Distinct, has_id}

remove_id : ℕ → List Task → List Task
remove_id j [] = []
remove_id j (t ∷ ts) = if t.id == j then ts else t ∷ remove_id j ts

length-remove_id :
    (j : ℕ) (ts : List Task) → has_id j ts ≡ true → length ts ≡ 1 + length (remove_id j ts)
unfolding remove_id
length-remove_id j [] h = ground arith
length-remove_id j (t ∷ ts) h = ground (arith, length-remove_id j ts)

has_id-remove_id :
    (j k : ℕ) (ts : List Task)
    → has_id k ts ≡ true
    → (k == j) ≡ false
    → has_id k (remove_id j ts) ≡ true
unfolding remove_id
has_id-remove_id j k [] h other = ground arith
has_id-remove_id j k (t ∷ ts) h other =
    ground (arith, has_id-remove_id j k ts, nat_beq_iff t.id j, nat_beq_iff t.id k, nat_beq_iff k j)

-- The ids of `xs` stand in `ys`.
abbrev pub IsWithin : List Task → List Task → Type 0
IsWithin ys xs = All (λ x. has_id x.id ys ≡ true) xs

IsWithin-remove_id :
    (j : ℕ) (ys xs : List Task)
    → has_id j xs ≡ false
    → IsWithin ys xs
    → IsWithin (remove_id j ys) xs
IsWithin-remove_id j ys [] fresh a = tt
IsWithin-remove_id j ys (x ∷ xs) fresh (h, a) =
    (has_id-remove_id j x.id ys h (ground arith), IsWithin-remove_id j ys xs (ground arith) a)

length-IsWithin : (xs ys : List Task) → Distinct xs → IsWithin ys xs → length xs ≤ length ys
length-IsWithin [] ys u a = omega arith
length-IsWithin (x ∷ xs) ys (fresh, u) (h, a) = omega (
  arith,
  length-remove_id x.id ys h,
  length-IsWithin xs (remove_id x.id ys) u (IsWithin-remove_id x.id ys xs fresh a),
)

has_id-append :
    (j : ℕ) (xs ys : List Task)
    → has_id j xs ≡ false
    → has_id j ys ≡ false
    → has_id j (xs ++ ys) ≡ false
has_id-append j [] ys h k = k
has_id-append j (x ∷ xs) ys h k = ground (arith, has_id-append j xs ys)

pub Distinct-append :
    (xs ys : List Task)
    → Distinct xs
    → Distinct ys
    → All (λ x. has_id x.id ys ≡ false) xs
    → Distinct (xs ++ ys)
Distinct-append [] ys u v a = v
Distinct-append (x ∷ xs) ys (fresh, u) v (h, a) =
    (has_id-append x.id xs ys fresh h, Distinct-append xs ys u v a)

pub All-append : (P : Task → Type 0) (xs ys : List Task) → All P xs → All P ys → All P (xs ++ ys)
All-append P [] ys a b = b
All-append P (x ∷ xs) ys (h, a) b = (h, All-append P xs ys a b)

module _ (D : Database) (p : Task → Bool) where
  open D use {Db, find, count, count_lem, page_lem}

  abbrev pub IsFound : Db → Task → Type 0
  IsFound d t = (find t.id d ≡ some t) × (p t ≡ true)

  -- The rows that a count counts.
  pub counted :
      (d : Db)
      → (ts : List Task) × Distinct ts
        × All (IsFound d) ts
        × (length ts ≡ count p d)
        × ((t : Task) → find t.id d ≡ some t → p t ≡ true → has_id t.id ts ≡ true)
  counted d =
      let (ts, cut, newest, apart, sound, complete) = page_lem p 0 0 d in
      (ts, apart, sound, sym (count_lem p d ts apart sound complete), complete)

  found-IsWithin :
      (d : Db) (ts xs : List Task)
      → ((t : Task) → find t.id d ≡ some t → p t ≡ true → has_id t.id ts ≡ true)
      → All (IsFound d) xs
      → IsWithin ts xs
  found-IsWithin d ts [] complete a = tt
  found-IsWithin d ts (x ∷ xs) complete (h, a) =
      (complete x h.0 h.1, found-IsWithin d ts xs complete a)

  -- Rows that the query finds, none of them twice, are at most as many as it counts.
  pub length_le_count :
      (d : Db) (xs : List Task) → Distinct xs → All (IsFound d) xs → length xs ≤ count p d
  length_le_count d xs u a =
      let (ts, apart, sound, full, complete) = counted d in
      rw (← full) (length-IsWithin xs ts u (found-IsWithin d ts xs complete a))
