-- ===== src/Worker/Runner/Laws.antt =====
-- The rounds that the polling loop goes through.
use taskpilot_assessment.Prelude.{
  ◌+◌, ◌*◌, ◌≤◌, ◌≡◌, refl, Bool, true, false, List, [], ◌∷◌, arith, All, length, Bool-cases, inl,
  inr, if◌then◌else◌,
}
use taskpilot_assessment.Config.{Settings}
use taskpilot_assessment.Database.{Database, World}
use taskpilot_assessment.Worker.Tick.{run_once}
use taskpilot_assessment.Worker.Runner.{Round, Loop, round, rounds, run_loop}

-- The rounds up to the first that sees `stop`, which is gone through to its end.
abbrev pub until_stop : {S : Type 0} → List (Round S) → List (Round S)
until_stop [] = []
until_stop (r ∷ rs) = let rest = until_stop rs in if r.stops then r ∷ [] else r ∷ rest

module _ (D : Database) where
  open D use {Db}

  -- Every tick of the rounds, one after the other, whatever each of them returns or raises, and what is
  -- committed during each wait.
  abbrev pub ticks : Settings → List (Round Db) → World Db → World Db
  ticks s [] w = w
  ticks s (r ∷ rs) w = ticks s rs (r.meanwhile (run_once D s r.surroundings w).1)

  rounds_lem :
      (s : Settings) (rs : List (Round Db)) (l : Loop Db)
      → ((rounds D s rs l).world ≡ ticks s (until_stop rs) l.world)
        × ((rounds D s rs l).beats ≡ l.beats + length (until_stop rs))
        × (length (rounds D s rs l).waits ≡ length l.waits + length (until_stop rs))
        × (All (λ n. n ≤ s.worker_poll_interval_seconds * 1000000) l.waits
            → All (λ n. n ≤ s.worker_poll_interval_seconds * 1000000) (rounds D s rs l).waits)
  unfolding rounds round
  rounds_lem s [] l = (refl, omega arith, omega arith, λ h. h)
  rounds_lem s (r ∷ rs) l =
      let (world, beats, waits, bound) = rounds_lem s rs (round D s r l) in
      elim (Bool-cases r.stops) [
        | inl stop ↦ rw stop (refl, omega arith, omega arith, λ h. (omega arith, h))
        | inr more ↦
            rw more
              (world, ground (arith, beats), ground (arith, waits), λ h. bound (omega arith, h))
      ]

  -- The loop goes through the rounds up to the first by whose end `stop` is set and no further, and through
  -- none if it is set at the start. A tick that raises is followed by the next one like any other. There
  -- is one heartbeat at the start and one for each tick, and one wait after each tick, none of them longer
  -- than the interval.
  pub run_loop_lem :
      (s : Settings) (stopped : Bool) (rs : List (Round Db)) (w : World Db)
      → (ran : List (Round Db)) × (ran ≡ (if stopped then [] else until_stop rs))
        × ((run_loop D s stopped rs w).world ≡ ticks s ran w)
        × ((run_loop D s stopped rs w).beats ≡ 1 + length ran)
        × (length (run_loop D s stopped rs w).waits ≡ length ran)
        × All (λ n. n ≤ s.worker_poll_interval_seconds * 1000000) (run_loop D s stopped rs w).waits
  unfolding run_loop
  run_loop_lem s true rs w = ([], refl, refl, omega arith, omega arith, tt)
  run_loop_lem s false rs w =
      let (world, beats, waits, bound) =
        rounds_lem s rs (record { beats = 1; world = w; waits = [] }) in
      (until_stop rs, refl, world, beats, omega (arith, waits), bound tt)
