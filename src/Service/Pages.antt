-- ===== src/Service/Pages.antt =====
-- The pages of a listing, one after the other.
use taskpilot_assessment.Prelude.{
  ◌||◌, ℕ, zero, suc, ◌+◌, ◌≤◌, ◌≡◌, ◌∙◌, sym, refl, ap, true, false, Bool, Option, some, List, [],
  ◌∷◌, ◌++◌, arith, All, length, take, drop, ◌==◌, nat_eq, nat_beq_iff, Bool-cases, inl, inr,
}
use taskpilot_assessment.Models.{Task, TaskStatus}
use taskpilot_assessment.Database.{Database, Distinct, NewestFirst, has_id}
use taskpilot_assessment.Database.Rows.{All-has_id}
use taskpilot_assessment.Service.{has_status, list_tasks}
use taskpilot_assessment.Service.Queries.{IsListed}

take-take-drop : (l m : ℕ) (ts : List Task) → take l ts ++ take m (drop l ts) ≡ take (l + m) ts
take-take-drop zero m ts = let e : 0 + m ≡ m = omega arith in rw e refl
take-take-drop (suc l) zero [] = let e : suc l + 0 ≡ suc (l + 0) = omega arith in rw e refl
take-take-drop (suc l) (suc m) [] =
    let e : suc l + suc m ≡ suc (l + suc m) = omega arith in rw e refl
take-take-drop (suc l) m (t ∷ ts) =
    let e : suc l + m ≡ suc (l + m) = omega arith in
    rw e (ap (λ us. t ∷ us) (take-take-drop l m ts))

take_all : (ts : List Task) → take (length ts) ts ≡ ts
take_all [] = refl
take_all (t ∷ ts) = ap (λ us. t ∷ us) (take_all ts)

drop-drop : (o l : ℕ) (ts : List Task) → drop l (drop o ts) ≡ drop (o + l) ts
drop-drop zero l ts = let e : 0 + l ≡ l = omega arith in rw e refl
drop-drop (suc o) zero [] = let e : suc o + 0 ≡ suc (o + 0) = omega arith in rw e refl
drop-drop (suc o) (suc l) [] = let e : suc o + suc l ≡ suc (o + suc l) = omega arith in rw e refl
drop-drop (suc o) l (t ∷ ts) =
    let e : suc o + l ≡ suc (o + l) = omega arith in rw e (drop-drop o l ts)

both_true : (a b : Bool) → (a ≡ true → b ≡ true) → (b ≡ true → a ≡ true) → a ≡ b
both_true true b f g = sym (f refl)
both_true false true f g = g refl
both_true false false f g = refl

module _ (D : Database) (status : Option TaskStatus) (d : D.Db) where
  open D use {find, count, page, count_lem, page_lem}

  -- No two of the listed rows were created at the same time.
  abbrev pub AreApart : Type 0
  AreApart =
      (t u : Task)
      → IsListed D status d t
      → IsListed D status d u
      → t.created_at ≡ u.created_at
      → t.id ≡ u.id

  same_row : (t u : Task) → IsListed D status d t → IsListed D status d u → t.id ≡ u.id → t ≡ u
  same_row t u h k e = ground arith

  no_newer :
      (b : ℕ) (y : Task) (us : List Task)
      → All (λ u. u.created_at ≤ b) us
      → All (IsListed D status d) us
      → IsListed D status d y
      → has_id y.id us ≡ true
      → y.created_at ≤ b
  no_newer b y [] s a listed there = ground arith
  no_newer b y (u ∷ us) (h, s) (k, a) listed there = elim (Bool-cases (u.id == y.id)) [
    | inl e ↦ let same : u ≡ y = same_row u y k listed ((nat_beq_iff u.id y.id).0 e) in rw same at h
    | inr e ↦ no_newer b y us s a listed (rw e at there)
  ]

  same_tail :
      (j i : ℕ) (xs ys : List Task)
      → has_id i xs ≡ false
      → has_id i ys ≡ false
      → (i == j || has_id j xs) ≡ (i == j || has_id j ys)
      → has_id j xs ≡ has_id j ys
  same_tail j i xs ys f f' h = ground (arith, nat_beq_iff i j)

  listed_within :
      (j : ℕ) (xs ys : List Task)
      → All (IsListed D status d) xs
      → ((t : Task) → find t.id d ≡ some t → has_status status t ≡ true → has_id t.id ys ≡ true)
      → has_id j xs ≡ true
      → has_id j ys ≡ true
  listed_within j xs ys a complete h =
      let (t, same, (found, p)) = All-has_id (IsListed D status d) j xs a h in
      let there = complete t found p in rw same at there

  module _ (apart : AreApart) where
    -- What is listed newest first, with the same ids, is the same.
    same_listing :
        (xs ys : List Task)
        → NewestFirst xs
        → NewestFirst ys
        → Distinct xs
        → Distinct ys
        → All (IsListed D status d) xs
        → All (IsListed D status d) ys
        → ((j : ℕ) → has_id j xs ≡ has_id j ys)
        → xs ≡ ys
    same_listing [] [] s s' u u' a a' h = refl
    same_listing [] (y ∷ ys) s s' u u' a a' h =
        absurd (ground (arith, h y.id, nat_beq_iff y.id y.id))
    same_listing (x ∷ xs) [] s s' u u' a a' h =
        absurd (ground (arith, h x.id, nat_beq_iff x.id x.id))
    same_listing (x ∷ xs) (y ∷ ys) (n, s) (n', s') (f, u) (f', u') (k, a) (k', a') h =
        let x_there : has_id x.id (y ∷ ys) ≡ true = ground (arith, h x.id, nat_beq_iff x.id x.id) in
        let y_there : has_id y.id (x ∷ xs) ≡ true = ground (arith, h y.id, nat_beq_iff y.id y.id) in
        let x_older = no_newer y.created_at x (y ∷ ys) (omega arith, n') (k', a') k x_there in
        let y_older = no_newer x.created_at y (x ∷ xs) (omega arith, n) (k, a) k' y_there in
        let e : x ≡ y = same_row x y k k' (apart x y k k' (omega arith)) in
        let rest = same_listing xs ys s s' u u' a a' (λ j.
          same_tail j x.id xs ys f (rw e f') (h j ∙ ap (λ z. z.id == j || has_id j ys) (sym e))) in
        ap (λ z. z ∷ xs) e ∙ ap (λ zs. y ∷ zs) rest

    -- One listing serves every page.
    pages_of :
        (limit offset : ℕ)
        → page (has_status status) limit offset d
          ≡ take limit (drop offset (page_lem (has_status status) 0 0 d).0)
    pages_of limit offset =
        let (ts, cut, sorted, unique, sound, complete) = page_lem (has_status status) 0 0 d in
        let (us, cut', sorted', unique', sound', complete') =
          page_lem (has_status status) limit offset d in
        let same : us ≡ ts = same_listing us ts sorted' sorted unique' unique sound' sound (λ j.
          both_true (has_id j us) (has_id j ts) (listed_within j us ts sound' complete)
            (listed_within j ts us sound complete')) in
        cut' ∙ ap (λ xs. take limit (drop offset xs)) same

    -- While the table does not change, and no two of the tasks with the requested status were created at
    -- the same time, the pages of the listing cover it: a page and the one that begins where it ends are the
    -- page of both lengths, and the page as long as the total from the beginning has all of them.
    pub list_tasks_pages :
        (limit more offset : ℕ)
        → ((list_tasks D status limit offset d).0 ++ (list_tasks D status more (offset + limit) d).0
            ≡ (list_tasks D status (limit + more) offset d).0)
          × ((t : Task)
              → IsListed D status d t
              → has_id t.id (list_tasks D status (list_tasks D status limit offset d).1 0 d).0
                ≡ true)
    unfolding list_tasks
    list_tasks_pages limit more offset =
        let (ts, cut, sorted, unique, sound, complete) = page_lem (has_status status) 0 0 d in
        let total = count_lem (has_status status) d ts unique sound complete in
        (
          rw (pages_of limit offset, pages_of more (offset + limit), pages_of (limit + more) offset)
              (rw (← drop-drop offset limit ts) (take-take-drop limit more (drop offset ts))),
          λ t h. rw (total, pages_of (length ts) 0, take_all) (complete t h.0 h.1),
        )
