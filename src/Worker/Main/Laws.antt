-- ===== src/Worker/Main/Laws.antt =====
-- The heartbeat and the end of the worker's process.
use taskpilot_assessment.Prelude.{
  ℕ, zero, suc, ◌+◌, ◌≡◌, refl, String, Bool, true, Bool-cases, inl, inr, Option, List, [], arith,
  length, ap, ◌∙◌, if◌then◌else◌,
}
use taskpilot_assessment.Config.{Settings}
use taskpilot_assessment.Logging.{Loggers}
use taskpilot_assessment.Database.{Database, World}
use taskpilot_assessment.Worker.Runner.{Round, run_loop}
use taskpilot_assessment.Worker.Runner.Laws.{until_stop, ticks, run_loop_lem}
use taskpilot_assessment.Worker.Main.{Heartbeat, beat_each, no_heartbeat, main}

beat_each_lem :
    (writable : ℕ → Bool) (n : ℕ) (h : Heartbeat)
    → (beat_each writable n h).touched + (beat_each writable n h).warned ≡ h.touched + h.warned + n
beat_each_lem writable zero h = omega arith
beat_each_lem writable (suc n) h = elim (Bool-cases (writable n)) [
  | inl touches ↦ rw touches (omega (arith, beat_each_lem writable n h))
  | inr fails ↦ rw fails (omega (arith, beat_each_lem writable n h))
]

module _ (D : Database) where
  open D use {Db}

  -- The process goes through the rounds up to the first by whose end a signal has come, and through none
  -- if one came before; its calls of `_beat`, one at the start and one for each tick, have each touched
  -- the file or logged that it could not, and a file that cannot be written ends nothing. The engine is
  -- disposed in the end.
  main_lem :
      (level_named : String → Option ℕ) (s : Settings) (writable : ℕ → Bool) (stopped : Bool)
      (rs : List (Round Db)) (l : Loggers) (w : World Db)
      → let ran : List (Round Db) = if stopped then [] else until_stop rs in
        let process = main D level_named s writable stopped rs l w in
        (process.world ≡ ticks D s ran w)
        × (process.heartbeat.touched + process.heartbeat.warned ≡ 1 + length ran)
        × (process.disposed ≡ true)
  unfolding main
  main_lem level_named s writable stopped rs l w =
      let (ran, same, world, beats, _, _) = run_loop_lem D s stopped rs w in
      (
        world ∙ ap (λ r. ticks D s r w) same,
        omega (
          arith,
          beat_each_lem writable (run_loop D s stopped rs w).beats no_heartbeat,
          beats,
          ap (λ r. length r) same,
        ),
        refl,
      )
