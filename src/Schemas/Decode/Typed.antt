-- ===== src/Schemas/Decode/Typed.antt =====
-- What each field of a request accepts.
use taskpilot_assessment.Prelude.{
  ℕ, ◌≡◌, ◌≢◌, ◌↔◌, ◌⊎◌, ◌≤◌, inl, inr, refl, true, String, Bool, Option, none, some, List, [], ◌∷◌,
  arith, ◌==◌, string_eq, eq_iff, Bool-cases,
}
use taskpilot_assessment.Errors.{Exception, ErrorItem, ◌>>=◌, Result, ok, err, Result-cases}
use taskpilot_assessment.Config.{Settings}
use taskpilot_assessment.Json.{Json, null, str, obj, Fields, end, field, get, dumps_size}
use taskpilot_assessment.Schemas.{
  TaskCreate, Datetime, check_title, validate_payload, normalise_scheduled_at,
  check_idempotency_key, resolve, some_result,
}
use taskpilot_assessment.Validation.{both, check}
use taskpilot_assessment.Schemas.Decode.{
  with_default, or_null, permit, read_str, extras, title_field, payload_field, scheduled_at_field,
  idempotency_key_field,
}

-- An object without other keys than those declared.
abbrev pub HasOnly : (String → Bool) → Fields → Type 0
HasOnly declared fs = (k : String) (v : Json) → get k fs ≡ some v → declared k ≡ true

pub extras-HasOnly :
    (declared : String → Bool) (fs : Fields) → extras declared fs ≡ [] → HasOnly declared fs
unfolding get
extras-HasOnly declared end e k v h = ground arith
extras-HasOnly declared (field x w fs) e k v h = elim (Bool-cases (x == k)) [
  | inl here ↦ let same : x ≡ k = (eq_iff x k).0 here in rw (← same) (ground arith)
  | inr other ↦ extras-HasOnly declared fs (ground arith) k v (rw other at h)
]

pub HasOnly-extras :
    (declared : String → Bool) (fs : Fields) → HasOnly declared fs → extras declared fs ≡ []
unfolding get
HasOnly-extras declared end a = refl
HasOnly-extras declared (field x w fs) a =
    let here : declared x ≡ true = a x w (ground (arith, eq_iff x x)) in
    let later = HasOnly-extras declared fs (λ k v h. ground (arith, eq_iff x k, a k v, here)) in
    rw (here, later) refl

read_str_iff : (j : Json) (x : String) → (read_str j ≡ ok x) ↔ (j ≡ str x)
read_str_iff j x = ground arith

pub title_field_iff :
    (s : Settings) (o : Option Json) (t : String)
    → (title_field s o ≡ ok t) ↔ ((x : String) × (o ≡ some (str x)) × (check_title s x ≡ ok t))
title_field_iff s none t = ground arith
title_field_iff s (some (str x)) t = (λ h. (x, refl, h), λ (y, e, h). ground arith)
title_field_iff s (some j) t = (λ h. ground arith, λ (y, e, h). ground arith)

pub payload_field_iff :
    (s : Settings) (o : Option Json) (p : Fields)
    → validate_payload s end ≡ ok end
    → (payload_field s o ≡ ok p) ↔ (
        (x : Fields) × (((o ≡ none) × (x ≡ end)) ⊎ (o ≡ some (obj x)))
        × (validate_payload s x ≡ ok p))
payload_field_iff s none p small =
    (λ h. (end, inl (refl, refl), ground arith), λ (x, e, h). ground arith)
payload_field_iff s (some (obj x)) p small = (λ h. (x, inr refl, h), λ (y, e, h). ground arith)
payload_field_iff s (some j) p small = (λ h. ground arith, λ (y, e, h). ground arith)

-- A value that may be left out or null.
abbrev pub Nullable : {A : Type 0} → (Json → A → Type 0) → Option Json → Option A → Type 0
Nullable P o none = (o ≡ none) ⊎ (o ≡ some null)
Nullable P o (some a) = (j : Json) × (o ≡ some j) × (j ≢ null) × P j a

module _ {A B : Type 0} (read : Json → Result A) (P : Json → A → Type 0)
    (reads : (j : Json) (a : A) → (read j ≡ ok a) ↔ P j a) (next : Option A → Result (Option B))
    (kept : next none ≡ ok none) where
  given :
      (j : Json) (b : Option B)
      → j ≢ null
      → ((do v ← some_result (read j); next v) ≡ ok b)
        ↔ ((a : Option A) × Nullable P (some j) a × (next a ≡ ok b))
  given j b there = elim (Result-cases (read j)) [
    | inl (a, e) ↦ (
      λ h. (some a, (j, refl, there, (reads j a).0 e), rw e at h),
      λ (x, n, h). rw e (taken a x e n h),
    )
    | inr (e, r) ↦ (λ h. cc (rw r at h), λ (x, n, h). absurd (untaken e x r n))
  ]
    where
      taken :
          (a : A) (x : Option A)
          → read j ≡ ok a
          → Nullable P (some j) x
          → next x ≡ ok b
          → next (some a) ≡ ok b
      taken a none e n h = absurd (there (ground arith))
      taken a (some x) e (k, same, other, q) h =
          let e' : k ≡ j = ground arith in
          let x' : read j ≡ ok x = (reads j x).1 (rw e' at q) in
          let same' : x ≡ a = ground arith in rw (← same') h

      untaken : (e : Exception) (x : Option A) → read j ≡ err e → Nullable P (some j) x → ⊥
      untaken e none r n = there (ground arith)
      untaken e (some x) r (k, same, other, q) =
          let e' : k ≡ j = ground arith in let x' : read j ≡ ok x = (reads j x).1 (rw e' at q) in cc

  no_value :
      (o : Option Json) (x : Option A) → (o ≡ none) ⊎ (o ≡ some null) → Nullable P o x → x ≡ none
  no_value o none e n = refl
  no_value o (some x) e (j, same, other, q) = absurd (other (ground arith))

  null_field_iff :
      (o : Option Json) (b : Option B)
      → (with_default none (λ j. do v ← or_null read j; next v) o ≡ ok b)
        ↔ ((a : Option A) × Nullable P o a × (next a ≡ ok b))
  null_field_iff none b = (
    λ h. (none, inl refl, ground arith),
    λ (a, e, h). ground (arith, no_value none a (inl refl) e),
  )
  null_field_iff (some null) b =
      (λ h. (none, inr refl, h), λ (a, e, h). rw (no_value (some null) a (inr refl) e) at h)
  null_field_iff (some j) b = given j b (λ e. ground arith)

pub permit_iff :
    (es : List ErrorItem) (a : Result String) (b : Result Fields) (c : Result (Option ℕ))
    (d : Result (Option String)) (body : TaskCreate)
    → (resolve (
          permit es (
            both
              (both (check "title" a) (check "payload" b))
              (both (check "scheduled_at" c) (check "idempotency_key" d))))
        ≡ ok body)
      ↔ ((es ≡ [])
          × (a ≡ ok body.title)
          × (b ≡ ok body.payload)
          × (c ≡ ok body.scheduled_at)
          × (d ≡ ok body.idempotency_key))
permit_iff [] a b c d body = (
  λ h. ground (arith, Result-cases a, Result-cases b, Result-cases c, Result-cases d),
  λ (e, title, payload, at, key). rw (title, payload, at, key) refl,
)
permit_iff (e ∷ es) a b c d body = (
  λ h. ground (arith, Result-cases a, Result-cases b, Result-cases c, Result-cases d),
  λ (x, title, payload, at, key). ground arith,
)

pub small_payload : (s : Settings) → 2 ≤ s.max_payload_bytes → validate_payload s end ≡ ok end
unfolding validate_payload dumps_size
small_payload s room = ground arith

pub scheduled_at_iff :
    (parse : Json → Result Datetime) (o : Option Json) (at : Option ℕ)
    → (scheduled_at_field parse o ≡ ok at) ↔ (
        (v : Option Datetime) × Nullable (λ j x. parse j ≡ ok x) o v
        × (normalise_scheduled_at v ≡ ok at))
unfolding normalise_scheduled_at
scheduled_at_iff parse =
    null_field_iff parse (λ j x. parse j ≡ ok x) (λ j x. (λ h. h, λ h. h)) normalise_scheduled_at
      refl

pub idempotency_key_iff :
    (o : Option Json) (key : Option String)
    → (idempotency_key_field o ≡ ok key)
      ↔ ((k : Option String) × Nullable (λ j x. j ≡ str x) o k × (check_idempotency_key k ≡ ok key))
unfolding check_idempotency_key
idempotency_key_iff =
    null_field_iff read_str (λ j x. j ≡ str x) read_str_iff check_idempotency_key refl
