-- ===== src/App/Laws.antt =====
-- The lifespan with and without a worker, and when the application allows other origins.
use taskpilot_assessment.Prelude.{
  ℕ, zero, suc, ◌+◌, ◌≤◌, ◌≢◌, leb, take, length, length-take, eq_iff, ◌==◌, string_eq, String,
  Bool, true, false, not, ◌&&◌, ◌||◌, ◌≡◌, refl, ap, ◌∙◌, ◌⊎◌, nat_beq, Bool-cases, inl, inr,
  Option, none, some, List, [], ◌∷◌, ◌++◌, arith, if◌then◌else◌, is_space, has_text, split,
  strip_lem, All,
}
use Prim.Native.Char.{code}
use taskpilot_assessment.Config.{Settings, origins, cors_origins}
use taskpilot_assessment.Config.Laws.{IsBare, cors_origins-IsBare}
use taskpilot_assessment.Logging.{Loggers}
use taskpilot_assessment.Database.{Database, World}
use taskpilot_assessment.Worker.Runner.{Round, Loop}
use taskpilot_assessment.Worker.Tick.{run_once}
use taskpilot_assessment.Worker.Runner.Laws.{until_stop, ticks, run_loop_lem}
use taskpilot_assessment.App.{
  lifespan, Layer, cors, request_logging, add_cors, create_app, start_up, insecure_key_line,
  set_stop, await_worker, shut_down, world_after,
}

-- Some code point is neither a comma nor white space.
abbrev pub has_origin : String → Bool
has_origin String.[] = false
has_origin (String.◌∷◌ c s) = not (nat_beq (code c) 44) && not (is_space (code c)) || has_origin s

any_text : List String → Bool
any_text [] = false
any_text (p ∷ ps) = has_text p || any_text ps

split-any_text : (s : String) → any_text (split 44 s) ≡ has_origin s
unfolding split any_text
split-any_text String.[] = refl
split-any_text (String.◌∷◌ c s) = elim (Bool-cases (nat_beq (code c) 44)) [
  | inl comma ↦ rw comma (split-any_text s)
  | inr other ↦ rw other (ground (arith, split-any_text s))
]

has_any : {A : Type 0} → List A → Bool
has_any [] = false
has_any (x ∷ xs) = true

origins-any_text : (ps : List String) → has_any (origins ps) ≡ any_text ps
unfolding has_any any_text
origins-any_text [] = refl
origins-any_text (p ∷ ps) = ground (arith, strip_lem p, origins-any_text ps)

has_any-cors_origins : (s : Settings) → has_any (cors_origins s) ≡ has_origin s.cors_allow_origins
unfolding cors_origins
has_any-cors_origins s =
    origins-any_text (split 44 s.cors_allow_origins) ∙ split-any_text s.cors_allow_origins

cors_if : List String → Bool → List Layer
cors_if os b = if b then cors os ∷ [] else []

add_cors-cors_if : (os : List String) → add_cors os [] ≡ cors_if os (has_any os)
unfolding has_any cors_if
add_cors-cors_if [] = refl
add_cors-cors_if (o ∷ os) = refl

-- The application's outermost layer logs and guards every request, cross-origin ones included. Another
-- layer, inside of it, allows other origins exactly if the setting has a code point that is neither a
-- comma nor white space; no origin that it allows is empty or has white space at its ends.
create_app_lem :
    (s : Settings)
    → (create_app s
        ≡ request_logging
          ∷ (if has_origin s.cors_allow_origins then cors (cors_origins s) ∷ [] else []))
      × All IsBare (cors_origins s)
unfolding create_app cors_if
create_app_lem s = (
  ap (λ ls. request_logging ∷ ls)
      (add_cors-cors_if (cors_origins s) ∙ ap (cors_if (cors_origins s)) (has_any-cors_origins s)),
  cors_origins-IsBare s,
)

module _ (D : Database) where
  open D use {Db}

  -- The rounds that the loop goes through are those that it has begun when the event is set.
  ticks-set_stop :
      (s : Settings) (begun i k : ℕ) (rs : List (Round Db)) (w : World Db)
      → begun ≡ i + k
      → (ticks D s (until_stop (set_stop D begun i rs)) w ≡ ticks D s (take (suc k) rs) w)
        × (length (until_stop (set_stop D begun i rs)) ≡ length (take (suc k) rs))
  unfolding set_stop
  ticks-set_stop s begun i k [] w e = (refl, refl)
  ticks-set_stop s begun i zero (r ∷ rs) w e =
      let now : leb begun i ≡ true = ground arith in rw now (refl, refl)
  ticks-set_stop s begun i (suc k) (r ∷ rs) w e =
      let later : leb begun i ≡ false = ground arith in
      let (same, count) =
        ticks-set_stop s begun (suc i) k rs (r.meanwhile (run_once D s r.surroundings w).1)
          (omega arith) in
      rw later (same, ap suc count)

  await_worker_lem :
      (s : Settings) (begun : ℕ) (rs : List (Round Db)) (w : World Db)
      → ((await_worker D s begun rs w).world ≡ ticks D s (take begun rs) w)
        × (length (await_worker D s begun rs w).waits ≡ length (take begun rs))
  unfolding await_worker
  await_worker_lem s zero rs w =
      let (ran, same, world, beats, waits, _) = run_loop_lem D s true (set_stop D 0 1 rs) w in
      (world ∙ ap (λ r. ticks D s r w) same, waits ∙ ap length same)
  await_worker_lem s (suc k) rs w =
      let (ran, same, world, beats, waits, _) =
        run_loop_lem D s false (set_stop D (suc k) 1 rs) w in
      let (went, count) = ticks-set_stop s (suc k) 1 k rs w (omega arith) in
      (world ∙ ap (λ r. ticks D s r w) same ∙ went, waits ∙ ap length same ∙ count)

  shut_down_lem :
      (s : Settings) (begun : ℕ) (rs : List (Round Db)) (w : World Db)
      → ((s.run_worker ≡ true)
          × (shut_down D s begun rs w ≡ (
            "in_process_worker_stopped" ∷ "api_shutdown_complete" ∷ [],
            some (await_worker D s begun rs w),
          )))
        ⊎ ((s.run_worker ≡ false)
            × (shut_down D s begun rs w ≡ ("api_shutdown_complete" ∷ [], none)))
  unfolding shut_down
  shut_down_lem s begun rs w =
      let after : Bool → List String × Option (Loop Db) = λ b.
        if b
        then (
          "in_process_worker_stopped" ∷ "api_shutdown_complete" ∷ [],
          some (await_worker D s begun rs w),
        )
        else ("api_shutdown_complete" ∷ [], none) in
      elim (Bool-cases s.run_worker) [
        | inl on ↦ inl (on, ap after on)
        | inr off ↦ inr (off, ap after off)
      ]

  -- The warning of the default key.
  abbrev pub IsWarning : Settings → List String → Type 0
  IsWarning s warning =
      ((s.api_key ≡ "change-me-in-production") × (warning ≡ "insecure_api_key_in_use" ∷ []))
      ⊎ ((s.api_key ≢ "change-me-in-production") × (warning ≡ []))

  insecure_key_line_lem : (s : Settings) → IsWarning s (insecure_key_line s)
  insecure_key_line_lem s = elim (Bool-cases (s.api_key == "change-me-in-production")) [
    | inl same ↦ inl ((eq_iff s.api_key "change-me-in-production").0 same, rw same refl)
    | inr other ↦
        inr ((λ e. ground (arith, (eq_iff s.api_key "change-me-in-production").1 e)), rw other refl)
  ]

  -- With the worker switched on, the shutdown sets its event and waits for it: it has gone through
  -- exactly the rounds that it had begun by then, all of which are given, the last one to its end,
  -- and no further one. Without, there is no worker, and the table is as the requests left it.
  -- Either way the lifespan first warns of the default key exactly if it is in use, and the last
  -- line is that the shutdown is complete.
  pub lifespan_lem :
      (level_named : String → Option ℕ) (s : Settings) (served : World Db → World Db) (begun : ℕ)
      (rs : List (Round Db)) (l : Loggers) (w : World Db)
      → begun ≤ length rs
      → let life = lifespan D level_named s served begun rs l w in
        (warning : List String) × IsWarning s warning
        × (((s.run_worker ≡ true)
              × (life.world ≡ ticks D s (take begun rs) (served w))
              × ((loop : Loop Db) × (life.worker ≡ some loop) × (length loop.waits ≡ begun))
              × (life.logged
                  ≡ warning
                    ++ "in_process_worker_started" ∷ "api_startup_complete"
                      ∷ "in_process_worker_stopped" ∷ "api_shutdown_complete" ∷ []))
            ⊎ ((s.run_worker ≡ false)
                × (life.world ≡ served w)
                × (life.worker ≡ none)
                × (life.logged ≡ warning ++ "api_startup_complete" ∷ "api_shutdown_complete" ∷ [])))
  unfolding lifespan
  lifespan_lem level_named s served begun rs l w enough =
      let (world, waits) = await_worker_lem s begun rs (served w) in
      (
        insecure_key_line s,
        insecure_key_line_lem s,
        elim (shut_down_lem s begun rs (served w)) [
          | inl (on, e) ↦ inl (
            on,
            ap (λ p. world_after (p.1) (served w)) e ∙ world,
            (
              await_worker D s begun rs (served w),
              ap (λ p. p.1) e,
              omega (arith, waits, length-take begun rs),
            ),
            ap (λ p. start_up s ++ p.0) e ∙ ground (arith, on),
          )
          | inr (off, e) ↦ inr (
            off,
            ap (λ p. world_after (p.1) (served w)) e,
            ap (λ p. p.1) e,
            ap (λ p. start_up s ++ p.0) e ∙ ground (arith, off),
          )
        ],
      )
