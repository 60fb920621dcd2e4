-- ===== src/StateMachine/Lifecycle.antt =====
-- Where a task can get by the allowed transitions.
use mathlib.Core.Path.{subst}
use taskpilot_assessment.Prelude.{◌≡◌, ◌≢◌, ◌⊎◌, ◌↔◌, refl, inl, inr, Bool, true, false, arith}
use taskpilot_assessment.Models.{TaskStatus, pending, running, succeeded, failed, dead}
use taskpilot_assessment.StateMachine.{can_transition}

-- A sequence of allowed transitions.
pub data Reaches (s : TaskStatus) : TaskStatus → Type 0 where
  here : Reaches s s
  next : {t u : TaskStatus} → Reaches s t → can_transition t u ≡ true → Reaches s u

-- A status has no transition at all exactly when it is succeeded or dead.
terminal_iff :
    (s : TaskStatus)
    → ((t : TaskStatus) → can_transition s t ≡ false) ↔ ((s ≡ succeeded) ⊎ (s ≡ dead))
unfolding can_transition
terminal_iff s = (λ h. ground (arith, h running, h failed, h dead), λ h t. ground arith)

-- Which statuses can follow which, in any number of steps.
abbrev reachable : TaskStatus → TaskStatus → Bool
reachable succeeded succeeded = true
reachable succeeded _ = false
reachable dead dead = true
reachable dead _ = false
reachable _ _ = true

reachable_step :
    (s t u : TaskStatus) → reachable s t ≡ true → can_transition t u ≡ true → reachable s u ≡ true
unfolding can_transition
reachable_step s t u h e = ground arith

reachable_of_Reaches : {s t : TaskStatus} → Reaches s t → reachable s t ≡ true
reachable_of_Reaches {s} here = ground arith
reachable_of_Reaches {s} (next {t} {u} r e) = reachable_step s t u (reachable_of_Reaches r) e

Reaches-trans : {s t u : TaskStatus} → Reaches s t → Reaches t u → Reaches s u
Reaches-trans r here = r
Reaches-trans r (next r' e) = next (Reaches-trans r r') e

Reaches-from_pending : (u : TaskStatus) → Reaches pending u
unfolding can_transition
Reaches-from_pending pending = here
Reaches-from_pending running = next here refl
Reaches-from_pending succeeded = next {t = running} (next here refl) refl
Reaches-from_pending failed = next {t = running} (next here refl) refl
Reaches-from_pending dead = next here refl

Reaches-of_reachable : (s t : TaskStatus) → reachable s t ≡ true → Reaches s t
unfolding can_transition
Reaches-of_reachable pending t h = Reaches-from_pending t
Reaches-of_reachable running t h =
    Reaches-trans (next {t = failed} (next here refl) refl) (Reaches-from_pending t)
Reaches-of_reachable failed t h = Reaches-trans (next here refl) (Reaches-from_pending t)
Reaches-of_reachable succeeded succeeded h = here
Reaches-of_reachable succeeded _ h = cc
Reaches-of_reachable dead dead h = here
Reaches-of_reachable dead _ h = cc

-- Any number of allowed transitions leads from a status to another exactly when the first is neither
-- succeeded nor dead, or the two are the same.
pub Reaches-iff : (s t : TaskStatus) → Reaches s t ↔ (((s ≢ succeeded) × (s ≢ dead)) ⊎ (s ≡ t))
Reaches-iff s t =
    (λ r. ground (arith, reachable_of_Reaches r), λ h. Reaches-of_reachable s t (ground arith))

via_running : {s u : TaskStatus} → Reaches s u → u ≡ succeeded → (s ≡ succeeded) ⊎ Reaches s running
unfolding can_transition
via_running here e = inl e
via_running {s} (next {t} {u} r step) e =
    inr (subst (λ x. Reaches s x) (before_succeeded t u step e) r)
  where
    before_succeeded : (t u : TaskStatus) → can_transition t u ≡ true → u ≡ succeeded → t ≡ running
    before_succeeded t u step e = ground arith

-- No task succeeds without having been running: every way to succeeded from another status passes
-- running.
succeeded_via_running : (s : TaskStatus) → Reaches s succeeded → (s ≡ succeeded) ⊎ Reaches s running
succeeded_via_running s r = via_running r refl
