-- ===== src/Tests/Progress.antt =====
-- Two claims of one task each on the small table: the first takes the older of the due tasks.
use taskpilot_assessment.Prelude.{◌≡◌, ◌≤◌, ◌*◌, refl, true, false, some, [], ◌∷◌, arith}
use taskpilot_assessment.Database.Memory.{Table, memory}
use taskpilot_assessment.Worker.Claim.Progress.{
  Turn, IsFair, is_ahead, is_taken, claim_due_tasks_no_starvation,
}
use taskpilot_assessment.Tests.Data.{clock, flaky, table, worker}

abbrev turn : Turn Table
turn = record { now = clock; locked = λ j. false; between = λ d. d }

turn-IsFair : IsFair memory flaky turn
turn-IsFair = record { due = omega arith; free = refl; kept = λ d h. h; no_more = λ d. omega arith }

found_flaky : memory.find 2 table ≡ some flaky
unfolding worker
found_flaky = refl

two_ahead : memory.count (is_ahead flaky) table ≤ 1 * 2
unfolding worker
two_ahead = omega arith

not_at_once : is_taken memory 1 2 (turn ∷ []) table ≡ false
unfolding worker is_taken
not_at_once = refl

claim_due_tasks_no_starvation_example : is_taken memory 1 2 (turn ∷ turn ∷ []) table ≡ true
claim_due_tasks_no_starvation_example =
    claim_due_tasks_no_starvation memory 1 (turn ∷ turn ∷ []) table flaky
      (turn-IsFair, (turn-IsFair, tt)) found_flaky refl two_ahead
