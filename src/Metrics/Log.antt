-- ===== src/Metrics/Log.antt =====
-- The counters of crates/diagnostics/src/lib.rs against the list of what was recorded.
use flowtile_wm.Base.{
  ℕ, suc, ◌+◌, ◌*◌, ◌≤◌, max, min, ◌≡◌, refl, String, List, [], ◌∷◌, length, arith,
}
use native.Mathlib.Nat.{div-le_of_le-mul, mul-le-mul_left}
use flowtile_wm.Base.Words.{u64_max}
use flowtile_wm.Metrics.Counters.{
  AtomicPerfMetric, new_metric, step, steps, duration_to_micros, record_duration, record_error,
  record_skip, average_duration_us, snapshot_metric,
}

-- A call of one of the three methods.
pub data Call : Type 0 where
  duration : (micros : ℕ) → Call
  error skip : Call

unfoldable pub perform : Call → AtomicPerfMetric → AtomicPerfMetric
unfolding steps record_duration
perform (duration micros) m = steps (record_duration micros) m
perform error m = steps record_error m
perform skip m = steps record_skip m

-- The calls of a history, the latest first.
unfoldable pub after_calls : List Call → AtomicPerfMetric
unfolding perform new_metric
after_calls [] = new_metric
after_calls (c ∷ cs) = perform c (after_calls cs)

-- What the counters promise, said of the history alone.
abbrev pub durations : List Call → List ℕ
durations [] = []
durations (duration micros ∷ cs) = duration_to_micros micros ∷ durations cs
durations (error ∷ cs) = durations cs
durations (skip ∷ cs) = durations cs

abbrev pub errors : List Call → ℕ
errors [] = 0
errors (duration micros ∷ cs) = errors cs
errors (error ∷ cs) = suc (errors cs)
errors (skip ∷ cs) = errors cs

abbrev pub skips : List Call → ℕ
skips [] = 0
skips (duration micros ∷ cs) = skips cs
skips (error ∷ cs) = skips cs
skips (skip ∷ cs) = suc (skips cs)

abbrev pub sum : List ℕ → ℕ
sum [] = 0
sum (n ∷ ns) = n + sum ns

abbrev pub largest : List ℕ → ℕ
largest [] = 0
largest (n ∷ ns) = max n (largest ns)

abbrev pub latest : List ℕ → ℕ
latest [] = 0
latest (n ∷ ns) = n

abbrev pub summary : List Call → AtomicPerfMetric
summary cs = record {
  samples = min (length (durations cs)) u64_max;
  total_duration_us = min (sum (durations cs)) u64_max;
  max_duration_us = largest (durations cs);
  last_duration_us = latest (durations cs);
  error_count = min (errors cs) u64_max;
  skip_count = min (skips cs) u64_max;
}

counted : (n : ℕ) → min (min n u64_max + 1) u64_max ≡ min (suc n) u64_max
counted n = omega arith

added : (n d : ℕ) → min (min n u64_max + d) u64_max ≡ min (d + n) u64_max
added n d = omega arith

raised : (n d : ℕ) → max n d ≡ max d n
raised n d = omega arith

-- After any history, the counters are the saturated number and sum of its durations, their maximum, the
-- latest of them, and the saturated numbers of errors and skips.
pub after_calls-summary : (cs : List Call) → after_calls cs ≡ summary cs
unfolding after_calls perform steps step record_duration new_metric
after_calls-summary [] = refl
after_calls-summary (duration micros ∷ cs) =
    rw
      (
        after_calls-summary cs,
        counted (length (durations cs)),
        added (sum (durations cs)) (duration_to_micros micros),
        raised (largest (durations cs)) (duration_to_micros micros),
      )
      refl
after_calls-summary (error ∷ cs) = rw (after_calls-summary cs, counted (errors cs)) refl
after_calls-summary (skip ∷ cs) = rw (after_calls-summary cs, counted (skips cs)) refl

sum-le : (ns : List ℕ) → sum ns ≤ length ns * largest ns
sum-le [] = omega arith
sum-le (n ∷ ns) =
    let wider =
      mul-le-mul_left {m = largest ns} {n = max n (largest ns)} (length ns) (omega arith) in
    omega (arith, sum-le ns, wider)

capped : (n : ℕ) → n ≤ u64_max → min n u64_max ≡ n
capped n h = omega arith

mean-le :
    (total samples most : ℕ) → total ≤ samples * most → average_duration_us total samples ≤ most
unfolding average_duration_us
mean-le total samples most h =
    let quotient = div-le_of_le-mul samples {m = total} {n = most} h in ground (arith, quotient)

-- After any history of at most `u64::MAX` durations, the average in a snapshot is at most the maximum
-- in it.
pub average-le_max :
    (cs : List Call) (metric : String)
    → length (durations cs) ≤ u64_max
    → (snapshot_metric (after_calls cs) metric).average_duration_us
      ≤ (snapshot_metric (after_calls cs) metric).max_duration_us
unfolding snapshot_metric
average-le_max cs metric h =
    let all = capped (length (durations cs)) h in
    rw (after_calls-summary cs) (mean-le _ _ _ (rw all (omega (arith, sum-le (durations cs)))))
