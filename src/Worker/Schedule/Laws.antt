-- ===== src/Worker/Schedule/Laws.antt =====
-- By when the runs of a tick have ended.
use mathlib.Core.Path.{subst}
use taskpilot_assessment.Prelude.{
  ℕ, zero, suc, ◌+◌, ◌*◌, ◌≤◌, ◌≡◌, refl, List, [], ◌∷◌, arith, All, length, leb, nat_eq,
  nat_beq_iff, if◌then◌else◌,
}
use taskpilot_assessment.Config.{Settings}
use taskpilot_assessment.Worker.Gather.{permits}
use taskpilot_assessment.Worker.Schedule.{
  Span, earliest, occupy, run_each, repeat, run_times, last_end,
}

-- How many of the permits are free by `b`.
abbrev free_by : ℕ → List ℕ → ℕ
free_by b [] = 0
free_by b (u ∷ us) = (if leb u b then 1 else 0) + free_by b us

length-occupy : (t d : ℕ) (us : List ℕ) → length (occupy t d us) ≡ length us
length-occupy t d [] = refl
length-occupy t d (u ∷ us) = ground (arith, length-occupy t d us)

earliest_by : (b u : ℕ) (us : List ℕ) → 1 ≤ free_by b (u ∷ us) → earliest u us ≤ b
earliest_by b u [] h = ground arith
earliest_by b u (v ∷ us) h = ground (arith, earliest_by b v us)

-- One run takes one permit.
free_by-occupy : (b t d : ℕ) (us : List ℕ) → free_by b us ≤ 1 + free_by b (occupy t d us)
free_by-occupy b t d [] = omega arith
free_by-occupy b t d (u ∷ us) = ground (arith, free_by-occupy b t d us)

free_by_full : (b : ℕ) (us : List ℕ) → All (λ u. u ≤ b) us → free_by b us ≡ length us
free_by_full b [] a = refl
free_by_full b (u ∷ us) (h, a) = ground (arith, free_by_full b us a)

All-occupy :
    (b t d : ℕ) (us : List ℕ) → t + d ≤ b → All (λ u. u ≤ b) us → All (λ u. u ≤ b) (occupy t d us)
All-occupy b t d [] h a = tt
All-occupy b t d (u ∷ us) h (k, a) = ground (arith, All-occupy b t d us h a, nat_beq_iff u t)

All-weaken : (b c : ℕ) (us : List ℕ) → b ≤ c → All (λ u. u ≤ b) us → All (λ u. u ≤ c) us
All-weaken b c [] h a = tt
All-weaken b c (u ∷ us) h (k, a) = (omega arith, All-weaken b c us h a)

-- With `r` permits free by `b` and all of them by one run later, `r` tasks end by then, and every
-- further round of tasks one run later.
run_each_ends :
    (T : ℕ) (ds free : List ℕ) (b r k : ℕ)
    → All (λ d. d ≤ T) ds
    → All (λ u. u ≤ b + T) free
    → r ≤ free_by b free
    → length ds ≤ r + k * length free
    → All (λ x. x.ends ≤ b + T + k * T) (run_each free ds)
unfolding run_each
run_each_ends T [] free b r k a f h n = tt
run_each_ends T (d ∷ ds) [] b r k a f h n = tt
run_each_ends T (d ∷ ds) (u ∷ us) b (suc r) k (e, a) f h n =
    let t = earliest u us in
    let soon : t ≤ b = earliest_by b u us (omega arith) in
    (
      omega arith,
      run_each_ends T ds (occupy t d (u ∷ us)) b r k a
          (All-occupy (b + T) t d (u ∷ us) (omega arith) f)
          (omega (arith, free_by-occupy b t d (u ∷ us)))
          (rw (length-occupy t d (u ∷ us)) (omega arith)),
    )
run_each_ends T (d ∷ ds) (u ∷ us) b zero zero a f h n = absurd (omega arith)
run_each_ends T (d ∷ ds) (u ∷ us) b zero (suc k) a f h n =
    let all = free_by_full (b + T) (u ∷ us) f in
    let rest =
      run_each_ends T (d ∷ ds) (u ∷ us) (b + T) (suc (length us)) k a
        (All-weaken (b + T) (b + T + T) (u ∷ us) (omega arith) f) (omega arith) (omega arith) in
    let same : b + T + T + k * T ≡ b + T + suc k * T = omega arith in
    subst (λ e. All (λ x. x.ends ≤ e) (run_each (u ∷ us) (d ∷ ds))) same rest

length-repeat : (n t : ℕ) → length (repeat n t) ≡ n
length-repeat zero t = refl
length-repeat (suc n) t = ground (arith, length-repeat n t)

All-repeat : (n t b : ℕ) → t ≤ b → All (λ u. u ≤ b) (repeat n t)
All-repeat zero t b h = tt
All-repeat (suc n) t b h = (h, All-repeat n t b h)

-- The runs of a tick, none of which takes longer than `T`, have all ended after as many times `T` as it
-- takes rounds of all permits to reach their number.
pub run_times_end :
    (s : Settings) (now T rounds : ℕ) (ds : List ℕ)
    → All (λ d. d ≤ T) ds
    → length ds ≤ rounds * permits s
    → All (λ x. x.ends ≤ now + rounds * T) (run_times s now ds)
unfolding run_times
run_times_end s now T rounds [] a n = tt
run_times_end s now T zero (d ∷ ds) a n = absurd (omega arith)
run_times_end s now T (suc k) (d ∷ ds) a n =
    let free = repeat (permits s) now in
    let full : length free ≡ permits s = length-repeat (permits s) now in
    let all = free_by_full now free (All-repeat (permits s) now now (omega arith)) in
    let same : now + T + k * T ≡ now + suc k * T = omega arith in
    subst (λ e. All (λ x. x.ends ≤ e) (run_each free (d ∷ ds))) same
      (run_each_ends T (d ∷ ds) free now (permits s) k a
        (All-repeat (permits s) now (now + T) (omega arith)) (omega arith) (rw full (omega arith)))

pub last_end_le : (b t : ℕ) (xs : List Span) → t ≤ b → All (λ x. x.ends ≤ b) xs → last_end t xs ≤ b
last_end_le b t [] h a = h
last_end_le b t (x ∷ xs) h (k, a) = omega (arith, last_end_le b t xs h a)
