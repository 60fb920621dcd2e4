-- ===== src/Metrics.antt =====
-- app/metrics.py: the Prometheus counters about tasks.
use taskpilot_assessment.Prelude.{ℕ, ◌+◌}

-- `tasks_processed_total` is one counter for each value of its label `outcome`.
pub record Metrics : Type 0 where
  pub tasks_created_total : ℕ
  pub processed_succeeded : ℕ
  pub processed_retried : ℕ
  pub processed_dead : ℕ
  pub tasks_reclaimed_total : ℕ

pub data Counter : Type 0 where
  created succeeded retried dead reclaimed : Counter

-- `counter.inc()`
abbrev pub inc : Counter → Metrics → Metrics
inc created m = record m { tasks_created_total = m.tasks_created_total + 1 }
inc succeeded m = record m { processed_succeeded = m.processed_succeeded + 1 }
inc retried m = record m { processed_retried = m.processed_retried + 1 }
inc dead m = record m { processed_dead = m.processed_dead + 1 }
inc reclaimed m = record m { tasks_reclaimed_total = m.tasks_reclaimed_total + 1 }

abbrev pub zero_metrics : Metrics
zero_metrics = record {
  tasks_created_total = 0;
  processed_succeeded = 0;
  processed_retried = 0;
  processed_dead = 0;
  tasks_reclaimed_total = 0;
}
