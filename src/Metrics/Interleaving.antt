-- ===== src/Metrics/Interleaving.antt =====
-- Calls of the methods of crates/diagnostics/src/lib.rs from several threads.
use flowtile_wm.Base.{ℕ, ◌+◌, max, min, ◌≡◌, refl, sym, ap, ◌∙◌, List, [], ◌∷◌, ◌++◌, arith}
use flowtile_wm.Base.Words.{u64_max}
use flowtile_wm.Metrics.Counters.{
  AtomicPerfMetric, Step, count_sample, count_error, count_skip, add_duration, store_last,
  fetch_max, step, steps,
}

-- The steps of two threads in an order that keeps the order of each.
pub data Interleaves : List Step → List Step → List Step → Type 0 where
  finished : Interleaves [] [] []
  first :
      {s : Step} {xs ys zs : List Step} → Interleaves xs ys zs → Interleaves (s ∷ xs) ys (s ∷ zs)
  second :
      {s : Step} {xs ys zs : List Step} → Interleaves xs ys zs → Interleaves xs (s ∷ ys) (s ∷ zs)

-- The counters without the latest duration.
abbrev pub tally : AtomicPerfMetric → AtomicPerfMetric
tally m = record m { last_duration_us = 0 }

summed : (n d e : ℕ) → min (min (n + d) u64_max + e) u64_max ≡ min (min (n + e) u64_max + d) u64_max
summed n d e = omega arith

raised : (n d e : ℕ) → max (max n d) e ≡ max (max n e) d
raised n d e = omega arith

step_comm :
    (s t : Step) (m : AtomicPerfMetric) → tally (step s (step t m)) ≡ tally (step t (step s m))
unfolding step
step_comm count_sample count_sample m = refl
step_comm count_sample count_error m = refl
step_comm count_sample count_skip m = refl
step_comm count_sample (add_duration e) m = refl
step_comm count_sample (store_last e) m = refl
step_comm count_sample (fetch_max e) m = refl
step_comm count_error count_sample m = refl
step_comm count_error count_error m = refl
step_comm count_error count_skip m = refl
step_comm count_error (add_duration e) m = refl
step_comm count_error (store_last e) m = refl
step_comm count_error (fetch_max e) m = refl
step_comm count_skip count_sample m = refl
step_comm count_skip count_error m = refl
step_comm count_skip count_skip m = refl
step_comm count_skip (add_duration e) m = refl
step_comm count_skip (store_last e) m = refl
step_comm count_skip (fetch_max e) m = refl
step_comm (add_duration d) count_sample m = refl
step_comm (add_duration d) count_error m = refl
step_comm (add_duration d) count_skip m = refl
step_comm (add_duration d) (add_duration e) m = rw (summed m.total_duration_us e d) refl
step_comm (add_duration d) (store_last e) m = refl
step_comm (add_duration d) (fetch_max e) m = refl
step_comm (store_last d) count_sample m = refl
step_comm (store_last d) count_error m = refl
step_comm (store_last d) count_skip m = refl
step_comm (store_last d) (add_duration e) m = refl
step_comm (store_last d) (store_last e) m = refl
step_comm (store_last d) (fetch_max e) m = refl
step_comm (fetch_max d) count_sample m = refl
step_comm (fetch_max d) count_error m = refl
step_comm (fetch_max d) count_skip m = refl
step_comm (fetch_max d) (add_duration e) m = refl
step_comm (fetch_max d) (store_last e) m = refl
step_comm (fetch_max d) (fetch_max e) m = rw (raised m.max_duration_us e d) refl

tally-step : (s : Step) (m : AtomicPerfMetric) → tally (step s m) ≡ tally (step s (tally m))
unfolding step
tally-step count_sample m = refl
tally-step count_error m = refl
tally-step count_skip m = refl
tally-step (add_duration d) m = refl
tally-step (store_last d) m = refl
tally-step (fetch_max d) m = refl

steps-tally :
    (ss : List Step) (m n : AtomicPerfMetric)
    → tally m ≡ tally n
    → tally (steps ss m) ≡ tally (steps ss n)
unfolding steps
steps-tally [] m n h = h
steps-tally (s ∷ ss) m n h =
    steps-tally ss (step s m) (step s n)
      (tally-step s m ∙ ap (λ k. tally (step s k)) h ∙ sym (tally-step s n))

-- A step may as well be the first.
steps-earlier :
    (xs ys : List Step) (s : Step) (m : AtomicPerfMetric)
    → tally (steps (xs ++ ys) (step s m)) ≡ tally (steps (xs ++ s ∷ ys) m)
unfolding steps
steps-earlier [] ys s m = refl
steps-earlier (x ∷ xs) ys s m =
    steps-tally (xs ++ ys) (step x (step s m)) (step s (step x m)) (step_comm x s m)
    ∙ steps-earlier xs ys s (step x m)

-- However the steps of two threads are interleaved, all counters but the latest duration are those of
-- one thread after the other.
pub Interleaves-tally :
    {xs ys zs : List Step}
    → Interleaves xs ys zs
    → (m : AtomicPerfMetric) → tally (steps zs m) ≡ tally (steps (xs ++ ys) m)
unfolding steps
Interleaves-tally finished m = refl
Interleaves-tally (first {s} r) m = Interleaves-tally r (step s m)
Interleaves-tally (second {s} {xs} {ys} r) m =
    Interleaves-tally r (step s m) ∙ steps-earlier xs ys s m
