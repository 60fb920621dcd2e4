-- ===== src/Tests/StateMachine.antt =====
-- The state machine at concrete statuses.
use taskpilot_assessment.Prelude.{◌≡◌, ◌≢◌, ◌⊎◌, ◌↔◌, refl}
use taskpilot_assessment.Models.{pending, running, succeeded, failed, dead}
use taskpilot_assessment.StateMachine.{can_transition}
use taskpilot_assessment.StateMachine.Lifecycle.{Reaches, here, next, Reaches-iff}

Reaches-iff_example :
    Reaches failed running ↔ (((failed ≢ succeeded) × (failed ≢ dead)) ⊎ (failed ≡ running))
Reaches-iff_example = Reaches-iff failed running

failed_to_succeeded : Reaches failed succeeded
unfolding can_transition
failed_to_succeeded = next {t = running} (next {t = pending} (next here refl) refl) refl
