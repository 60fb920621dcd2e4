-- ===== src/Worker/Gather/Occurrences.antt =====
-- How often an id is in a list, and the lists that a step takes one from.
use taskpilot_assessment.Prelude.{
  ℕ, ◌+◌, ◌≤◌, ◌≡◌, ◌⊎◌, refl, inl, inr, List, [], ◌∷◌, ◌++◌, arith, length, ◌==◌, nat_eq,
  nat_beq_iff, if◌then◌else◌,
}

abbrev pub single : ℕ → ℕ → ℕ
single i j = if i == j then 1 else 0

pub single_self : (i : ℕ) → single i i ≡ 1
single_self i = ground (arith, nat_beq_iff i i)

-- How often an id is in a list.
abbrev pub occurrences : ℕ → List ℕ → ℕ
occurrences j [] = 0
occurrences j (i ∷ is) = single i j + occurrences j is

pub occurrences-middle :
    (j : ℕ) (front back : List ℕ) (id : ℕ)
    → occurrences j (front ++ id ∷ back) ≡ single id j + occurrences j (front ++ back)
occurrences-middle j [] back id = refl
occurrences-middle j (i ∷ front) back id = omega (arith, occurrences-middle j front back id)

pub length-middle :
    (front back : List ℕ) (id : ℕ) → length (front ++ id ∷ back) ≡ 1 + length (front ++ back)
length-middle [] back id = omega arith
length-middle (i ∷ front) back id = omega (arith, length-middle front back id)

pub occurrences-length : (j : ℕ) (is : List ℕ) → occurrences j is ≤ length is
occurrences-length j [] = omega arith
occurrences-length j (i ∷ is) = ground (arith, occurrences-length j is)

pub List-cases : (is : List ℕ) → (is ≡ []) ⊎ ((i : ℕ) × (js : List ℕ) × (is ≡ i ∷ js))
List-cases [] = inl refl
List-cases (i ∷ is) = inr (i, is, refl)
