-- ===== src/Tests/TaskService.antt =====
-- The corrected service on small tables: user 0 is root, user 7 is ada.
use taskpilot_assessment.Prelude.{
  ℕ, ◌^◌, ◌≡◌, refl, String, Option, none, some, List, [], ◌∷◌, strip, decimal, ◌==◌, nat_eq,
  if◌then◌else◌,
}
use taskpilot_assessment.Errors.{ErrorItem, err, request_validation_error}
use taskpilot_assessment.Json.{end, dumps_size_spaced}
use taskpilot_assessment.TaskService.{TaskCreate, User, validate, new_row, get_tasks}
use taskpilot_assessment.TaskService.Tables.{Row}
use taskpilot_assessment.TaskService.Memory.{Store, memory}
use taskpilot_assessment.TaskService.Laws.{lookup, NewestFirst, IsUserOf, get_tasks_lem}

abbrev raw : TaskCreate
raw = record { title = " review "; payload = end; user_id = some 7 }

abbrev body : TaskCreate
body = record raw { title = "review" }

-- A task of root.
abbrev rooted : Row
rooted = record (new_row 1 500 body) { title = "rotate logs"; user_id = some 0 }

abbrev users : ℕ → Option String
users i = if i == 0 then some "root" else if i == 7 then some "ada" else none

abbrev store : Store
store = record { rows = rooted ∷ []; users = users; distinct = (refl, tt); ordered = (tt, tt) }

get_tasks_lem_example :
    ((j : ℕ) → memory.find_task j store ≡ none → lookup j (get_tasks memory store) ≡ none)
    × ((j : ℕ) (t : Row)
        → memory.find_task j store ≡ some t
        → (user : Option User) × IsUserOf memory store t user
          × (lookup j (get_tasks memory store)
              ≡ some (record {
                id = t.id;
                title = t.title;
                payload = t.payload;
                status = t.status;
                created_at = t.created_at;
                user = user;
              })))
    × NewestFirst (get_tasks memory store)
get_tasks_lem_example = get_tasks_lem memory store

-- The task of root shows no user.
shows_root :
    (get_tasks memory store)
    ≡ record {
      id = 1;
      title = "rotate logs";
      payload = end;
      status = "pending";
      created_at = 500;
      user = none;
    }
      ∷ []
unfolding get_tasks
shows_root = refl

abbrev blank : TaskCreate
blank = record raw { title = "  " }

abbrev blank_errors : List ErrorItem
blank_errors = record { loc = "body" ∷ "title" ∷ []; msg = "title must not be blank" } ∷ []

blank_refused : validate blank ≡ err (request_validation_error blank_errors)
unfolding validate dumps_size_spaced decimal strip
blank_refused = refl

abbrev large : TaskCreate
large = record body { user_id = some (2 ^ 64) }
