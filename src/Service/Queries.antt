-- ===== src/Service/Queries.antt =====
-- Reading, listing and deleting tasks.
use taskpilot_assessment.Prelude.{
  ℕ, ◌-◌, ◌≡◌, true, Option, none, some, List, arith, All, length, take, drop, length-take,
  length-drop, min, ◌==◌, nat_eq, nat_beq_iff, if◌then◌else◌,
}
use taskpilot_assessment.Errors.{ok, err}
use taskpilot_assessment.Models.{Task, TaskStatus}
use taskpilot_assessment.Database.{Database, World, Distinct, NewestFirst, has_id}
use taskpilot_assessment.Service.{not_found, has_status, get_task, list_tasks, delete_task}

module _ (D : Database) where
  open D use {Db, find, find-id, session_get-none, count_lem, page_lem, delete_lem}

  get_task_lem :
      (task_id : ℕ) (d : Db)
      → (find task_id d ≡ none → get_task D task_id d ≡ err not_found)
        × ((t : Task) → find task_id d ≡ some t → get_task D task_id d ≡ ok t)
  unfolding get_task
  get_task_lem task_id d = (
    λ h. ground (arith, session_get-none task_id d),
    λ t h. ground (arith, session_get-none task_id d),
  )

  -- Deleting a task that exists removes its row and no other, so that a later read of it, or a second
  -- deletion, is refused with 404. Deleting a missing task is refused with 404 and changes nothing.
  pub delete_task_lem :
      (task_id : ℕ) (w : World Db)
      → (find task_id w.db ≡ none → delete_task D task_id w ≡ (err not_found, w))
        × ((t : Task)
            → find task_id w.db ≡ some t
            → (w' : World Db) × (delete_task D task_id w ≡ (ok tt, w'))
              × (get_task D task_id w'.db ≡ err not_found)
              × (delete_task D task_id w' ≡ (err not_found, w'))
              × ((j : ℕ) → find j w'.db ≡ (if task_id == j then none else find j w.db)))
  unfolding delete_task
  delete_task_lem task_id w = (
    λ h. ground (arith, session_get-none task_id w.db),
    λ t h.
        let same : t.id ≡ task_id = find-id task_id w.db t h in
        let w' : World Db = record w { db = D.delete t.id w.db } in
        let gone : find task_id w'.db ≡ none =
          ground (arith, delete_lem t.id task_id w.db, nat_beq_iff t.id task_id) in
        (
          w',
          ground (arith, session_get-none task_id w.db),
          ground (arith, session_get-none task_id w'.db),
          ground (arith, session_get-none task_id w'.db),
          λ j. ground (arith, delete_lem t.id j w.db),
        ),
  )

  -- What every row of a listing is.
  abbrev pub IsListed : Option TaskStatus → Db → Task → Type 0
  IsListed status d t = (find t.id d ≡ some t) × (has_status status t ≡ true)

  -- A page of the listing is cut out of all the tasks with the requested status, newest first, each
  -- once. The total is the number of them all, so the page has `limit` tasks or what is left after
  -- `offset`.
  pub list_tasks_lem :
      (status : Option TaskStatus) (limit offset : ℕ) (d : Db)
      → (ts : List Task) × (list_tasks D status limit offset d
          ≡ (take limit (drop offset ts), length ts))
        × (length (list_tasks D status limit offset d).0
            ≡ min limit ((list_tasks D status limit offset d).1 - offset))
        × NewestFirst ts
        × Distinct ts
        × All (IsListed status d) ts
        × ((t : Task) → IsListed status d t → has_id t.id ts ≡ true)
  unfolding list_tasks
  list_tasks_lem status limit offset d =
      let (ts, cut, sorted, apart, sound, complete) = page_lem (has_status status) limit offset d in
      let total = count_lem (has_status status) d ts apart sound complete in
      (
        ts,
        cc (cut, total),
        rw (cut, total, length-take, length-drop),
        sorted,
        apart,
        sound,
        λ t h. complete t h.0 h.1,
      )
