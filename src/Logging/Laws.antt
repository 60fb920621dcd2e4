-- ===== src/Logging/Laws.antt =====
-- The loggers that the configuration leaves.
use taskpilot_assessment.Prelude.{
  ℕ, String, false, ◌≡◌, ◌≢◌, refl, ◌==◌, string_eq, Bool-cases, inl, inr, Option, [], ◌∷◌,
  upper_ascii,
}
use taskpilot_assessment.Logging.{Loggers, json_handler, or_info, configure_logging}

-- Once the loggers are configured, the root logger has one handler, which prints JSON and adds the
-- request id, and the level of the given name, or INFO if there is none; the access log of uvicorn has
-- no handler and passes nothing on; every other logger is as it was. An earlier call leaves no trace:
-- the loggers are as if there had been none.
configure_logging_lem :
    (level_named : String → Option ℕ) (level earlier : String) (l : Loggers)
    → let configured = configure_logging level_named level l in
      (configured.root_logger.handlers ≡ json_handler ∷ [])
      × (configured.root_logger.level ≡ or_info (level_named (upper_ascii level)))
      × ((configured.named "uvicorn.access").handlers ≡ [])
      × ((configured.named "uvicorn.access").propagate ≡ false)
      × ((n : String) → n ≢ "uvicorn.access" → configured.named n ≡ l.named n)
      × (((configure_logging level_named level
            (configure_logging level_named earlier l)).root_logger)
          ≡ configured.root_logger)
      × ((n : String)
          → (configure_logging level_named level (configure_logging level_named earlier l)).named n
            ≡ configured.named n)
unfolding configure_logging
configure_logging_lem level_named level earlier l = (
  refl,
  refl,
  refl,
  refl,
  λ n h. elim (Bool-cases (n == "uvicorn.access")) [
    | inl e ↦ absurd (h ((string_eq.equal_iff n "uvicorn.access").0 e))
    | inr e ↦ rw e refl
  ],
  refl,
  λ n. elim (Bool-cases (n == "uvicorn.access")) [ inl e ↦ rw e refl | inr e ↦ rw e refl ],
)
