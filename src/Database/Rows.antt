-- ===== src/Database/Rows.antt =====
-- Lists of rows, searched by primary key.
use taskpilot_assessment.Prelude.{
  ℕ, ◌≡◌, true, List, [], ◌∷◌, arith, All, ◌==◌, nat_eq, nat_beq_iff, Bool-cases, inl, inr,
}
use taskpilot_assessment.Models.{Task}
use taskpilot_assessment.Database.{has_id}

-- What holds of every row holds of the one that is found by its key.
pub All-has_id :
    (P : Task → Type 0) (j : ℕ) (ts : List Task)
    → All P ts
    → has_id j ts ≡ true
    → (t : Task) × (t.id ≡ j) × P t
All-has_id P j [] a h = ground arith
All-has_id P j (t ∷ ts) (p, a) h = elim (Bool-cases (t.id == j)) [
  | inl same ↦ (t, (nat_beq_iff t.id j).0 same, p)
  | inr other ↦ All-has_id P j ts a (ground arith)
]
