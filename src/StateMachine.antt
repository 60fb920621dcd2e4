-- ===== src/StateMachine.antt =====
-- app/state_machine.py: the table of allowed transitions.
pub mod Lifecycle
use taskpilot_assessment.Prelude.{Bool, false, List, [], ◌∷◌, ◌||◌, ◌==◌}
use taskpilot_assessment.Models.{TaskStatus, pending, running, succeeded, failed, dead, status_eq}

unfoldable pub allowed_transitions : TaskStatus → List TaskStatus
allowed_transitions pending = running ∷ dead ∷ []
allowed_transitions running = succeeded ∷ failed ∷ []
allowed_transitions failed = pending ∷ dead ∷ []
allowed_transitions succeeded = []
allowed_transitions dead = []

-- `target in targets`
abbrev mem_status : TaskStatus → List TaskStatus → Bool
mem_status s [] = false
mem_status s (t ∷ ts) = s == t || mem_status s ts

unfoldable pub can_transition : TaskStatus → TaskStatus → Bool
unfolding allowed_transitions
can_transition current target = mem_status target (allowed_transitions current)
