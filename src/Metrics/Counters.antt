-- ===== src/Metrics/Counters.antt =====
-- `AtomicPerfMetric` of crates/diagnostics/src/lib.rs. Each atomic operation is a step of its own, and a
-- method is the sequence of its steps.
use flowtile_wm.Base.{ℕ, ◌/◌, max, min, String, List, [], ◌∷◌, if◌then◌else◌, ◌==◌}
use flowtile_wm.Base.Words.{u64_max, sat_add_u64}

pub record AtomicPerfMetric : Type 0 where
  pub samples : ℕ
  pub total_duration_us : ℕ
  pub max_duration_us : ℕ
  pub last_duration_us : ℕ
  pub error_count : ℕ
  pub skip_count : ℕ

pub record PerfMetricSnapshot : Type 0 where
  pub metric : String
  pub samples : ℕ
  pub total_duration_us : ℕ
  pub average_duration_us : ℕ
  pub max_duration_us : ℕ
  pub last_duration_us : ℕ
  pub error_count : ℕ
  pub skip_count : ℕ

unfoldable pub new_metric : AtomicPerfMetric
new_metric = record {
  samples = 0;
  total_duration_us = 0;
  max_duration_us = 0;
  last_duration_us = 0;
  error_count = 0;
  skip_count = 0;
}

-- An atomic operation on one of the counters.
pub data Step : Type 0 where
  count_sample count_error count_skip : Step
  add_duration store_last fetch_max : (duration_us : ℕ) → Step

unfoldable pub step : Step → AtomicPerfMetric → AtomicPerfMetric
step count_sample m = record m { samples = sat_add_u64 m.samples 1 }
step count_error m = record m { error_count = sat_add_u64 m.error_count 1 }
step count_skip m = record m { skip_count = sat_add_u64 m.skip_count 1 }
step (add_duration d) m = record m { total_duration_us = sat_add_u64 m.total_duration_us d }
step (store_last d) m = record m { last_duration_us = d }
step (fetch_max d) m = record m { max_duration_us = max m.max_duration_us d }

unfoldable pub steps : List Step → AtomicPerfMetric → AtomicPerfMetric
unfolding step
steps [] m = m
steps (s ∷ ss) m = steps ss (step s m)

-- A duration is given by its microseconds, a `u128`.
abbrev pub duration_to_micros : ℕ → ℕ
duration_to_micros micros = min micros u64_max

unfoldable pub record_duration : ℕ → List Step
record_duration micros =
    let duration_us = duration_to_micros micros in
    count_sample ∷ add_duration duration_us ∷ store_last duration_us ∷ fetch_max duration_us ∷ []

abbrev pub record_error : List Step
record_error = count_error ∷ []

abbrev pub record_skip : List Step
record_skip = count_skip ∷ []

unfoldable pub average_duration_us : ℕ → ℕ → ℕ
average_duration_us total_duration_us samples =
    if samples == 0 then 0 else total_duration_us / samples

unfoldable pub snapshot_metric : AtomicPerfMetric → String → PerfMetricSnapshot
unfolding average_duration_us
snapshot_metric m metric = record {
  metric = metric;
  samples = m.samples;
  total_duration_us = m.total_duration_us;
  average_duration_us = average_duration_us m.total_duration_us m.samples;
  max_duration_us = m.max_duration_us;
  last_duration_us = m.last_duration_us;
  error_count = m.error_count;
  skip_count = m.skip_count;
}
