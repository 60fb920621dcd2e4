-- ===== src/Service/Status.antt =====
-- Changing the status of a task over the API.
use taskpilot_assessment.Prelude.{
  ℕ, ◌≡◌, ◌≢◌, ◌⊎◌, ◌↔◌, inl, inr, refl, true, false, none, some, arith, ◌==◌, nat_eq, nat_beq_iff,
  if◌then◌else◌, append_text, Bool-cases, Option-cases,
}
use taskpilot_assessment.Errors.{ok, err, api_error}
use taskpilot_assessment.Models.{
  Task, TaskStatus, pending, running, succeeded, failed, dead, value, status_eq, status_beq_iff,
}
use taskpilot_assessment.StateMachine.{can_transition}
use taskpilot_assessment.Database.{Database, Clock, World}
use taskpilot_assessment.Database.Changes.{touch, merge-locked}
use taskpilot_assessment.Service.{not_found, invalid_transition, update_status}

-- The arrows of the life cycle.
abbrev pub IsEdge : TaskStatus → TaskStatus → Type 0
IsEdge s t =
    ((s ≡ pending) × ((t ≡ running) ⊎ (t ≡ dead)))
    ⊎ ((s ≡ running) × ((t ≡ succeeded) ⊎ (t ≡ failed)))
    ⊎ ((s ≡ failed) × ((t ≡ pending) ⊎ (t ≡ dead)))

can_transition-IsEdge : (s t : TaskStatus) → can_transition s t ≡ true ↔ IsEdge s t
unfolding can_transition
can_transition-IsEdge s t = (λ h. ground arith, λ h. ground arith)

IsEdge-cases :
    (s t : TaskStatus)
    → (s ≡ t)
      ⊎ ((s ≢ t) × (IsEdge s t × (can_transition s t ≡ true)))
      ⊎ ((s ≢ t) × ((¬ IsEdge s t) × (can_transition s t ≡ false)))
IsEdge-cases s t = elim (Bool-cases (s == t)) [
  | inl same ↦ inl ((status_beq_iff s t).0 same)
  | inr other ↦
      let new : s ≢ t = λ h. ground (arith, status_beq_iff s t) in
      elim (Bool-cases (can_transition s t)) [
        | inl open' ↦ inr (inl (new, ((can_transition-IsEdge s t).0 open', open')))
        | inr shut ↦ inr (inr (new, (λ h. ground (arith, (can_transition-IsEdge s t).1 h), shut)))
      ]
]

module _ (D : Database) where
  open D use {Db, find, find-id, flush, flush_found}

  pub update_status_applies :
      (now : Clock) (task_id : ℕ) (target : TaskStatus) (w : World Db) (t : Task)
      → find task_id w.db ≡ some t
      → t.status ≢ target
      → can_transition t.status target ≡ true
      → (d' : Db) × (update_status D now task_id target w
          ≡ (ok (touch now.db (record t { status = target })), record w { db = d' }))
        × ((j : ℕ)
            → find j d' ≡ (
                if task_id == j
                then some (touch now.db (record t { status = target }))
                else find j w.db))
  unfolding update_status
  update_status_applies now task_id target w t found new allowed =
      let t' : Task = record t { status = target } in
      let same : t.id ≡ task_id = find-id task_id w.db t found in
      let found' : find t.id w.db ≡ some t = cc (same, found) in
      let (d', e, rows) =
        flush_found now.db t t' t w.db new (refl, refl, refl, refl, refl) found' in
      let locked = merge-locked now.db t t' (refl, refl, refl, refl, refl) in
      (
        d',
        ground (arith, rows t.id, nat_beq_iff t.id t.id, status_beq_iff t.status target),
        λ j. ground (arith, rows j),
      )

  -- The other requests change nothing: the status that a task has already is returned as it is, a
  -- transition that is not allowed is refused with 409, and a missing task with 404.
  pub update_status_refuses :
      (now : Clock) (task_id : ℕ) (target : TaskStatus) (w : World Db)
      → (find task_id w.db ≡ none → update_status D now task_id target w ≡ (err not_found, w))
        × ((t : Task)
            → find task_id w.db ≡ some t
            → t.status ≡ target
            → update_status D now task_id target w ≡ (ok t, w))
        × ((t : Task)
            → find task_id w.db ≡ some t
            → t.status ≢ target
            → can_transition t.status target ≡ false
            → update_status D now task_id target w ≡ (err (invalid_transition t.status target), w))
  unfolding update_status
  update_status_refuses now task_id target w = (
    λ h. ground arith,
    λ t h e. ground (arith, status_beq_iff t.status target),
    λ t h e f. ground (arith, status_beq_iff t.status target),
  )

  -- The outcomes of a request to change a status.
  abbrev pub IsAnswered : Clock → ℕ → TaskStatus → World Db → Type 0
  IsAnswered now task_id target w =
      ((find task_id w.db ≡ none)
        × (update_status D now task_id target w
            ≡ (err (api_error 404 "not_found" "Task not found."), w)))
      ⊎ ((t : Task) × (find task_id w.db ≡ some t)
          × (((t.status ≡ target) × (update_status D now task_id target w ≡ (ok t, w)))
              ⊎ (IsEdge t.status target
                  × ((d' : Db) × (update_status D now task_id target w
                        ≡ (ok (touch now.db (record t { status = target })), record w { db = d' }))
                      × ((j : ℕ)
                          → find j d' ≡ (
                              if task_id == j
                              then some (touch now.db (record t { status = target }))
                              else find j w.db))))
              ⊎ ((t.status ≢ target)
                  × ((¬ IsEdge t.status target)
                      × (update_status D now task_id target w ≡ (
                        err (
                            api_error 409 "invalid_transition" (
                              append_text "Cannot transition task from '" (
                                append_text (value t.status)
                                  (append_text "' to '" (append_text (value target) "'."))))),
                        w,
                      ))))))

  -- A request to change a status has one of four outcomes. A missing task is refused with 404, and
  -- nothing changes. The status that the task has already is answered with the row as it is, and nothing
  -- changes. A pending task that is to run or die, a running one that is to succeed or fail, and a failed
  -- one that is to be pending again or die gets the status and `updated_at`, and no other row changes. Any
  -- other transition is refused with 409 and a message that names the two statuses, and nothing changes.
  pub update_status_lem :
      (now : Clock) (task_id : ℕ) (target : TaskStatus) (w : World Db)
      → IsAnswered now task_id target w
  update_status_lem now task_id target w =
      let (missing, already, refused) = update_status_refuses now task_id target w in
      elim (Option-cases (find task_id w.db)) [
        | inl absent ↦ inl (absent, missing absent)
        | inr (t, found) ↦ inr (
          t,
          found,
          elim (IsEdge-cases t.status target) [
            | inl same ↦ inl (same, already t found same)
            | inr (inl (new, (edge, allowed))) ↦
                inr (inl (edge, update_status_applies now task_id target w t found new allowed))
            | inr (inr (new, (closed, shut))) ↦ inr (inr (new, (closed, refused t found new shut)))
          ],
        )
      ]
