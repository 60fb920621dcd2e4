-- ===== src/TaskService/Laws.antt =====
-- What the corrected service lists, and how it answers.
use mathlib.Core.Option
use taskpilot_assessment.Prelude.{
  ℕ, ◌≤◌, ◌⊎◌, ◌^◌, ◌≡◌, ◌≢◌, ◌∙◌, ap, refl, String, true, false, Option, none, some, List, [], ◌∷◌,
  map, arith, All, ◌==◌, nat_eq, nat_beq_iff, if◌then◌else◌, Bool-cases, Option-cases, inl, inr,
}
use taskpilot_assessment.Errors.{
  Exception, ok, err, ErrorItem, request_validation_error, overflow_error,
}
use taskpilot_assessment.TaskService.Tables.{Row, has_row, LatestFirst, Sqlite}
use taskpilot_assessment.TaskService.{
  TaskCreate, TaskRead, User, detail, handle, require_api_key, strip_title, bounded, validate,
  new_row, read_joined, join_user, create_task, get_tasks, post_tasks,
}

-- The item of a listing with an id.
abbrev pub lookup : ℕ → List TaskRead → Option TaskRead
lookup j [] = none
lookup j (r ∷ rs) = if r.id == j then some r else lookup j rs

abbrev pub NewestFirst : List TaskRead → Type 0
NewestFirst [] = Unit
NewestFirst (r ∷ rs) = All (λ u. u.created_at ≤ r.created_at) rs × NewestFirst rs

abbrev errors_of : Exception → List ErrorItem
errors_of (request_validation_error es) = es
errors_of _ = []

validate-errors :
    (raw : TaskCreate) (e : Exception)
    → validate raw ≡ err e
    → (es : List ErrorItem) × (e ≡ request_validation_error es)
unfolding validate strip_title bounded
validate-errors raw e h = (errors_of e, ground arith)

module _ (Q : Sqlite) where
  open Q use {
    Db, find_task, find_task-id, find_user, insert, insert_overflow, insert_free, select_tasks,
    select_sound, select_distinct, select_ordered, select_complete,
  }

  -- The item that stands for a row.
  abbrev pub item : Db → Row → TaskRead
  item d t = read_joined (join_user Q d t)

  item-facts : (d : Db) (t : Row) → ((item d t).id ≡ t.id) × ((item d t).created_at ≡ t.created_at)
  item-facts d t = ground (arith, Option-cases t.user_id)

  abbrev items : Db → List Row → List TaskRead
  items d ts = map read_joined (map (join_user Q d) ts)

  All-items :
      (d : Db) (n : ℕ) (ts : List Row)
      → All (λ t. t.created_at ≤ n) ts
      → All (λ r. r.created_at ≤ n) (items d ts)
  All-items d n [] a = tt
  All-items d n (t ∷ ts) (h, a) = (ground (arith, item-facts d t), All-items d n ts a)

  NewestFirst-items : (d : Db) (ts : List Row) → LatestFirst ts → NewestFirst (items d ts)
  NewestFirst-items d [] a = tt
  NewestFirst-items d (t ∷ ts) (h, a) =
      (rw ((item-facts d t).1) (All-items d t.created_at ts h), NewestFirst-items d ts a)

  lookup-items_absent :
      (d : Db) (j : ℕ) (ts : List Row) → has_row j ts ≡ false → lookup j (items d ts) ≡ none
  lookup-items_absent d j [] h = refl
  lookup-items_absent d j (t ∷ ts) h = ground (arith, item-facts d t, lookup-items_absent d j ts)

  lookup-items_found :
      (d : Db) (j : ℕ) (ts : List Row)
      → All (λ t. find_task t.id d ≡ some t) ts
      → has_row j ts ≡ true
      → (t : Row) × (find_task j d ≡ some t) × (lookup j (items d ts) ≡ some (item d t))
  lookup-items_found d j [] a h = ground arith
  lookup-items_found d j (t ∷ ts) (found, a) h = elim (Bool-cases (t.id == j)) [
    | inl same ↦
        let i : t.id ≡ j = (nat_beq_iff t.id j).0 same in
        (t, cc (i, found), ground (arith, item-facts d t))
    | inr other ↦
        let (u, found', e) = lookup-items_found d j ts a (ground arith) in
        (u, found', ground (arith, item-facts d t))
  ]

  -- For every id the item of its task, or nothing, and the newest tasks first.
  get_tasks-item :
      (d : Db)
      → ((j : ℕ) → lookup j (get_tasks Q d) ≡ Option.map (item d) (find_task j d))
        × NewestFirst (get_tasks Q d)
  unfolding get_tasks
  get_tasks-item d = (
    λ j. elim (Bool-cases (has_row j (select_tasks d))) [
      | inl h ↦
          let (t, found, e) = lookup-items_found d j (select_tasks d) (select_sound d) h in
          rw found e
      | inr h ↦ elim (Option-cases (find_task j d)) [
        | inl absent ↦ rw absent (lookup-items_absent d j (select_tasks d) h)
        | inr (t, found) ↦ ground (arith, select_complete d t, find_task-id j d t found)
      ]
    ],
    NewestFirst-items d (select_tasks d) (select_ordered d),
  )

  -- The user that a task is to be shown with: the one that its user id names, unless there is none of
  -- them or the id is 0.
  abbrev pub IsUserOf : Db → Row → Option User → Type 0
  IsUserOf d t user =
      ((i : ℕ) × (name : String) × (t.user_id ≡ some i)
        × (i ≢ 0)
        × (find_user i d ≡ some name)
        × (user ≡ some (record { id = i; name = some name })))
      ⊎ ((user ≡ none)
          × ((i : ℕ) (name : String) → t.user_id ≡ some i → find_user i d ≡ some name → i ≡ 0))

  item-IsUserOf : (d : Db) (t : Row) → IsUserOf d t (item d t).user
  item-IsUserOf d t = elim (Option-cases t.user_id) [
    | inl nobody ↦ inr (rw nobody refl, λ i name e. ground arith)
    | inr (i, owned) ↦ elim (Option-cases (find_user i d)) [
      | inl absent ↦ inr (ground arith, λ j name e h. ground arith)
      | inr (name, there) ↦ elim (Bool-cases (i == 0)) [
        | inl root ↦ inr (ground arith, λ j x e h. ground (arith, nat_beq_iff i 0))
        | inr other ↦
            inl (i, name, owned, (λ e. ground (arith, nat_beq_iff i 0)), there, ground arith)
      ]
    ]
  ]

  item-columns :
      (d : Db) (t : Row)
      → item d t ≡ record {
        id = t.id;
        title = t.title;
        payload = t.payload;
        status = t.status;
        created_at = t.created_at;
        user = (item d t).user;
      }
  item-columns d t = ground (arith, Option-cases t.user_id)

  -- The listing shows the table: for every id its task with the columns as they are stored, and nothing
  -- where there is no such task, the newest tasks first. A task is shown with its user, by id and name,
  -- where its user id is not 0 and names a user that is there, and otherwise with none.
  pub get_tasks_lem :
      (d : Db)
      → ((j : ℕ) → find_task j d ≡ none → lookup j (get_tasks Q d) ≡ none)
        × ((j : ℕ) (t : Row)
            → find_task j d ≡ some t
            → (user : Option User) × IsUserOf d t user
              × (lookup j (get_tasks Q d)
                  ≡ some (record {
                    id = t.id;
                    title = t.title;
                    payload = t.payload;
                    status = t.status;
                    created_at = t.created_at;
                    user = user;
                  })))
        × NewestFirst (get_tasks Q d)
  get_tasks_lem d =
      let (shown, sorted) = get_tasks-item d in
      (
        λ j absent. shown j ∙ rw absent refl,
        λ j t found.
            ((item d t).user, item-IsUserOf d t, shown j ∙ rw found (ap some (item-columns d t))),
        sorted,
      )

  -- A request with the right key whose body the validators refuse gets FastAPI's list of details, with 422,
  -- and not the error envelope of the service, and nothing is stored.
  post_tasks_invalid :
      (api_key : String) (key : Option String) (id now : ℕ) (raw : TaskCreate) (d : Db)
      (e : Exception)
      → require_api_key api_key key ≡ ok tt
      → validate raw ≡ err e
      → (es : List ErrorItem) × (post_tasks Q api_key key id now raw d ≡ (detail 422 es, d))
  unfolding post_tasks handle
  post_tasks_invalid api_key key id now raw d e admitted refused =
      let (es, same) = validate-errors raw e refused in
      (es, rw (admitted, post_tasks) (rw (refused, same, handle) refl))

  -- A user id above 64 bits is not refused as invalid: the driver's OverflowError becomes an internal error.
  create_task_overflow :
      (id now n : ℕ) (body : TaskCreate) (d : Db)
      → body.user_id ≡ some n
      → 2 ^ 63 ≤ n
      → create_task Q id now body d ≡ (err overflow_error, d)
  unfolding create_task
  create_task_overflow id now n body d e large =
      rw (insert_overflow (new_row id now body) n d e large, create_task) refl
