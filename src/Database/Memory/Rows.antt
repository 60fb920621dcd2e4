-- ===== src/Database/Memory/Rows.antt =====
-- Reading and rewriting a list of rows, and what keeps its keys distinct.
use mathlib.Core.Option
use mathlib.Core.Option.{some-injective}
use mathlib.Core.Bool.{or-true}
use taskpilot_assessment.Prelude.{
  ℕ, String, ◌≡◌, refl, ap, true, false, Bool, not, ◌||◌, Option, none, some, List, [], ◌∷◌, arith,
  All, filter, ◌==◌, nat_eq, nat_beq_iff, if◌then◌else◌, Bool-cases, inl, inr,
}
use taskpilot_assessment.Models.{Task, option_eq, option_beq_iff}
use taskpilot_assessment.Database.{has_id, Distinct}

unfoldable pub find_row : ℕ → List Task → Option Task
find_row j [] = none
find_row j (t ∷ ts) = if t.id == j then some t else find_row j ts

unfoldable pub find_key : String → List Task → Option Task
find_key k [] = none
find_key k (t ∷ ts) = if t.idempotency_key == some k then some t else find_key k ts

-- The key is set and another row has it.
abbrev pub key_taken : Option String → List Task → Bool
key_taken none ts = false
key_taken (some k) [] = false
key_taken (some k) (t ∷ ts) = t.idempotency_key == some k || key_taken (some k) ts

abbrev pub DistinctKeys : List Task → Type 0
DistinctKeys [] = Unit
DistinctKeys (t ∷ ts) = (key_taken t.idempotency_key ts ≡ false) × DistinctKeys ts

pub find_row-id : (j : ℕ) (ts : List Task) (t : Task) → find_row j ts ≡ some t → t.id ≡ j
unfolding find_row
find_row-id j [] t h = cc
find_row-id j (u ∷ us) t h = ground (arith, find_row-id j us t)

pub find_row_absent : (j : ℕ) (ts : List Task) → has_id j ts ≡ false → find_row j ts ≡ none
unfolding find_row
find_row_absent j [] h = refl
find_row_absent j (t ∷ ts) h = ground (arith, find_row_absent j ts)

pub has_id_of_none : (j : ℕ) (ts : List Task) → find_row j ts ≡ none → has_id j ts ≡ false
unfolding find_row
has_id_of_none j [] h = refl
has_id_of_none j (t ∷ ts) h = ground (arith, has_id_of_none j ts)

All-found-cons :
    (t : Task) (ts us : List Task)
    → has_id t.id us ≡ false
    → All (λ u. find_row u.id ts ≡ some u) us
    → All (λ u. find_row u.id (t ∷ ts) ≡ some u) us
unfolding find_row
All-found-cons t ts [] h a = tt
All-found-cons t ts (u ∷ us) h (e, a) = (
  ground (arith, nat_beq_iff t.id u.id, nat_beq_iff u.id t.id),
  All-found-cons t ts us (ground arith) a,
)

pub All-found : (ts : List Task) → Distinct ts → All (λ u. find_row u.id ts ≡ some u) ts
unfolding find_row
All-found [] u = tt
All-found (t ∷ ts) (h, u) =
    (ground (arith, nat_beq_iff t.id t.id), All-found-cons t ts ts h (All-found ts u))

module _ (P Q : Task → Type 0) where
  pub All-zip : (ts : List Task) → All P ts → All Q ts → All (λ t. P t × Q t) ts
  All-zip [] a b = tt
  All-zip (t ∷ ts) (h, a) (k, b) = ((h, k), All-zip ts a b)

  pub All-map : ((t : Task) → P t → Q t) → (ts : List Task) → All P ts → All Q ts
  All-map f [] a = tt
  All-map f (t ∷ ts) (h, a) = (f t h, All-map f ts a)

pub filter-true : (q : Task → Bool) (ts : List Task) → All (λ t. q t ≡ true) (filter q ts)
filter-true q [] = tt
filter-true q (t ∷ ts) = elim (Bool-cases (q t)) [
  | inl h ↦ rw h (h, filter-true q ts)
  | inr h ↦ rw h (filter-true q ts)
]

pub has_id-filter :
    (q : Task → Bool) (ts : List Task) (t : Task)
    → find_row t.id ts ≡ some t
    → q t ≡ true
    → has_id t.id (filter q ts) ≡ true
unfolding find_row
has_id-filter q [] t h k = cc
has_id-filter q (u ∷ us) t h k = ground (arith, has_id-filter q us t)

-- DELETE
abbrev pub delete_row : ℕ → List Task → List Task
delete_row i = filter (λ t. not (t.id == i))

pub find_row-delete_row :
    (i j : ℕ) (ts : List Task)
    → find_row j (delete_row i ts) ≡ (if i == j then none else find_row j ts)
unfolding find_row
find_row-delete_row i j [] = ground arith
find_row-delete_row i j (t ∷ ts) =
    ground
      (arith, find_row-delete_row i j ts, nat_beq_iff t.id i, nat_beq_iff t.id j, nat_beq_iff i j)

-- UPDATE
unfoldable pub update_row : ℕ → (Task → Task) → List Task → List Task
update_row i f [] = []
update_row i f (t ∷ ts) = (if t.id == i then f t else t) ∷ update_row i f ts

module _ (i : ℕ) (f : Task → Task)
    (kept : (t : Task) → ((f t).id ≡ t.id) × ((f t).idempotency_key ≡ t.idempotency_key)) where
  pub find_row-update_row :
      (j : ℕ) (ts : List Task)
      → find_row j (update_row i f ts)
        ≡ (if i == j then Option.map f (find_row j ts) else find_row j ts)
  unfolding find_row update_row
  find_row-update_row j [] = ground arith
  find_row-update_row j (t ∷ ts) = ground (
    arith,
    find_row-update_row j ts,
    kept t,
    nat_beq_iff t.id i,
    nat_beq_iff t.id j,
    nat_beq_iff i j,
  )

  has_id-update_row : (j : ℕ) (ts : List Task) → has_id j (update_row i f ts) ≡ has_id j ts
  unfolding update_row
  has_id-update_row j [] = refl
  has_id-update_row j (t ∷ ts) = ground (arith, has_id-update_row j ts, kept t)

  pub Distinct-update_row : (ts : List Task) → Distinct ts → Distinct (update_row i f ts)
  unfolding update_row
  Distinct-update_row [] u = tt
  Distinct-update_row (t ∷ ts) (h, u) =
      (ground (arith, has_id-update_row t.id ts, kept t), Distinct-update_row ts u)

  key_taken-update_row :
      (k : Option String) (ts : List Task) → key_taken k (update_row i f ts) ≡ key_taken k ts
  unfolding update_row
  key_taken-update_row none ts = refl
  key_taken-update_row (some k) [] = refl
  key_taken-update_row (some k) (t ∷ ts) = ground (arith, key_taken-update_row (some k) ts, kept t)

  pub DistinctKeys-update_row :
      (ts : List Task) → DistinctKeys ts → DistinctKeys (update_row i f ts)
  unfolding update_row
  DistinctKeys-update_row [] u = tt
  DistinctKeys-update_row (t ∷ ts) (h, u) = (
    ground (arith, key_taken-update_row t.idempotency_key ts, kept t),
    DistinctKeys-update_row ts u,
  )

key_taken-filter :
    (q : Task → Bool) (k : Option String) (ts : List Task)
    → key_taken k ts ≡ false
    → key_taken k (filter q ts) ≡ false
key_taken-filter q none ts h = refl
key_taken-filter q (some k) [] h = refl
key_taken-filter q (some k) (t ∷ ts) h = ground (arith, key_taken-filter q (some k) ts)

pub DistinctKeys-filter :
    (q : Task → Bool) (ts : List Task) → DistinctKeys ts → DistinctKeys (filter q ts)
DistinctKeys-filter q [] u = tt
DistinctKeys-filter q (t ∷ ts) (h, u) =
    ground (arith, DistinctKeys-filter q ts u, key_taken-filter q t.idempotency_key ts)

pub find_key_sound :
    (k : String) (ts : List Task) (t : Task)
    → Distinct ts
    → find_key k ts ≡ some t
    → (find_row t.id ts ≡ some t) × (t.idempotency_key ≡ some k)
unfolding find_key find_row
find_key_sound k [] t u h = cc
find_key_sound k (x ∷ xs) t (f, u) h = ground (
  arith,
  find_key_sound k xs t u,
  option_beq_iff x.idempotency_key (some k),
  nat_beq_iff x.id x.id,
  nat_beq_iff x.id t.id,
  find_row_absent x.id xs f,
)

find_key_taken :
    (k : String) (ts : List Task) (i : ℕ) (t : Task)
    → find_row i ts ≡ some t
    → t.idempotency_key ≡ some k
    → key_taken (some k) ts ≡ true
unfolding find_row
find_key_taken k [] i t h e = cc
find_key_taken k (x ∷ xs) i t h e = elim (Bool-cases (x.id == i)) [
  | inl here ↦
      let same : x ≡ t = some-injective x t (rw here at h) in
      let keyed : (x.idempotency_key == some k) ≡ true =
        (option_beq_iff x.idempotency_key (some k)).1 (rw same e) in
      rw keyed
  | inr other ↦
      let later : key_taken (some k) xs ≡ true = find_key_taken k xs i t (rw other at h) e in
      rw later (or-true _)
]

pub find_key_complete :
    (k : String) (ts : List Task) (i : ℕ) (t : Task)
    → DistinctKeys ts
    → find_row i ts ≡ some t
    → t.idempotency_key ≡ some k
    → find_key k ts ≡ some t
unfolding find_key find_row
find_key_complete k [] i t u h e = cc
find_key_complete k (x ∷ xs) i t (f, u) h e = elim (Bool-cases (x.id == i)) [
  | inl here ↦
      let same : x ≡ t = some-injective x t (rw here at h) in
      let keyed : (x.idempotency_key == some k) ≡ true =
        (option_beq_iff x.idempotency_key (some k)).1 (rw same e) in
      rw keyed (ap some same)
  | inr other ↦
      let later : find_row i xs ≡ some t = rw other at h in
      elim (Bool-cases (x.idempotency_key == some k)) [
        | inl keyed ↦
            let e' : x.idempotency_key ≡ some k =
              (option_beq_iff x.idempotency_key (some k)).0 keyed in
            cc (rw e' at f, find_key_taken k xs i t later e)
        | inr unkeyed ↦ rw unkeyed (find_key_complete k xs i t u later e)
      ]
]

pub key_taken-find_key :
    (k : String) (ts : List Task) → find_key k ts ≡ none → key_taken (some k) ts ≡ false
unfolding find_key
key_taken-find_key k [] h = refl
key_taken-find_key k (t ∷ ts) h = ground (arith, key_taken-find_key k ts)

pub key_taken_of_found :
    (k : String) (ts : List Task) (t : Task) → find_key k ts ≡ some t → key_taken (some k) ts ≡ true
unfolding find_key
key_taken_of_found k [] t h = cc
key_taken_of_found k (x ∷ xs) t h = ground (arith, key_taken_of_found k xs t)
