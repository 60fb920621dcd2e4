-- ===== src/Time.antt =====
-- `datetime` arithmetic of app/worker/processing.py, in microseconds since `datetime.min`.
use taskpilot_assessment.Prelude.{ℕ, ◌+◌, ◌-◌, ◌*◌, ltb, leb, if◌then◌else◌}
use taskpilot_assessment.Errors.{Result, ok, err, overflow_error}

-- `timedelta(seconds=s)`
abbrev pub seconds : ℕ → ℕ
seconds s = s * 1000000

-- `datetime.max`: there are 3652059 days from year 1 to year 9999.
abbrev pub max_time : ℕ
max_time = 3652059 * 86400 * 1000000 - 1

-- `t + timedelta(seconds=s)`, which raises past `datetime.max`.
unfoldable pub later : ℕ → ℕ → Result ℕ
later t s = if leb (t + seconds s) max_time then ok (t + seconds s) else err overflow_error

-- `t - timedelta(seconds=s)`, which raises before `datetime.min`.
unfoldable pub earlier : ℕ → ℕ → Result ℕ
earlier t s = if ltb t (seconds s) then err overflow_error else ok (t - seconds s)
