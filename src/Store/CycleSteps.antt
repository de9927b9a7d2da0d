-- ===== src/Store/CycleSteps.antt =====
-- `next_cycled_column_width` of crates/wm-core/src/state_store/width_resize.rs.
use flowtile_wm.Base.{
  ℕ, ◌≤◌, ◌<◌, ◌≡◌, sym, ◌∙◌, ◌⊎◌, inl, inr, max, true, false, List, [], ◌∷◌, ltb, find, get_or,
  contains, All, arith, Bool-cases, Option-cases,
}
use flowtile_wm.Base.Words.{clamp_u32, clamp_u32_bounds}
use flowtile_wm.Store.Resize.{sort, dedup, cycle_steps, next_cycled_column_width}
use flowtile_wm.Store.Sorting.{
  All-sort, All-dedup, contains-sort, contains-dedup, find_sound, find_complete, find-none,
  first-sort, first-dedup, sort-IsSorted, dedup-IsSorted, find-contains, find_least,
}

-- The steps of the cycle.
abbrev steps : ℕ → ℕ → List ℕ
steps min_width max_width = dedup (sort (cycle_steps min_width max_width))

contains-steps :
    (a min_width max_width : ℕ)
    → contains a (steps min_width max_width) ≡ contains a (cycle_steps min_width max_width)
contains-steps a min_width max_width =
    contains-dedup a (sort (cycle_steps min_width max_width))
    ∙ contains-sort a (cycle_steps min_width max_width)

step_bounds :
    (w min_width max_width : ℕ)
    → 1 ≤ min_width
    → min_width ≤ max_width
    → (min_width ≤ max (clamp_u32 w min_width max_width) 1)
      × (max (clamp_u32 w min_width max_width) 1 ≤ max_width)
step_bounds w min_width max_width p h =
    let (a, b) = clamp_u32_bounds w min_width max_width h in (omega arith, omega arith)

InRange : ℕ → ℕ → ℕ → Type 0
InRange min_width max_width n = (min_width ≤ n) × (n ≤ max_width)

steps-InRange :
    (min_width max_width : ℕ)
    → 1 ≤ min_width
    → min_width ≤ max_width
    → All (InRange min_width max_width) (steps min_width max_width)
unfolding InRange
steps-InRange min_width max_width p h = All-dedup _ _ (
    All-sort _ _ (
      step_bounds _ _ _ p h,
      (step_bounds _ _ _ p h, (step_bounds _ _ _ p h, (step_bounds _ _ _ p h, tt))),
    ))

-- The steps have the largest width.
max_width-step :
    (min_width max_width : ℕ)
    → 1 ≤ min_width
    → min_width ≤ max_width
    → contains max_width (steps min_width max_width) ≡ true
unfolding clamp_u32
max_width-step min_width max_width p h = contains-steps max_width min_width max_width ∙ ground arith

All-get_or :
    (P : ℕ → Type 0) (ns : List ℕ) (a : ℕ) → contains a ns ≡ true → All P ns → P (get_or ns 0 0)
All-get_or P [] a h k = cc
All-get_or P (n ∷ ns) a h (p, k) = p

-- Between bounds that are in order and at least one pixel, the next width of the cycle is within
-- the bounds, whatever the current width.
next_cycled_column_width-InRange :
    (current min_width max_width : ℕ)
    → 1 ≤ min_width
    → min_width ≤ max_width
    → (min_width ≤ next_cycled_column_width current min_width max_width)
      × (next_cycled_column_width current min_width max_width ≤ max_width)
unfolding next_cycled_column_width InRange
next_cycled_column_width-InRange current min_width max_width p h =
    let within = steps-InRange min_width max_width p h in
    elim (Option-cases (find (λ width. ltb current width) (steps min_width max_width))) [
      | inl e ↦ rw e (All-get_or _ _ max_width (max_width-step min_width max_width p h) within)
      | inr (a, e) ↦ rw e (find_sound _ _ _ a within e).0
    ]

-- Between bounds that are in order and at least one pixel, a column that is narrower than the
-- largest width gets wider with a step of the cycle.
next_cycled_column_width-grows :
    (current min_width max_width : ℕ)
    → 1 ≤ min_width
    → min_width ≤ max_width
    → current < max_width
    → current < next_cycled_column_width current min_width max_width
unfolding next_cycled_column_width
next_cycled_column_width-grows current min_width max_width p h k =
    elim (Option-cases (find (λ width. ltb current width) (steps min_width max_width))) [
      | inl e ↦
          elim (find_complete _ _ max_width (max_width-step min_width max_width p h) (ground arith)
            e) [ ]
      | inr (a, e) ↦
          let found = (find_sound _ _ _ a (steps-InRange min_width max_width p h) e).1 in
          rw e (ground (arith, found))
    ]

-- Between bounds that are in order and at least one pixel, the step of the cycle from the largest
-- width or a greater one is to a width that no step of the cycle is below.
next_cycled_column_width-wraps :
    (current min_width max_width step : ℕ)
    → 1 ≤ min_width
    → min_width ≤ max_width
    → max_width ≤ current
    → contains step (cycle_steps min_width max_width) ≡ true
    → next_cycled_column_width current min_width max_width ≤ step
unfolding next_cycled_column_width InRange
next_cycled_column_width-wraps current min_width max_width step p h k c =
    rw
      (
        find-none _ _ (not_larger _ (steps-InRange min_width max_width p h)),
        first-dedup (sort (cycle_steps min_width max_width)),
      )
      (first-sort step (cycle_steps min_width max_width) c)
  where
    not_larger :
        (ns : List ℕ) → All (InRange min_width max_width) ns → All (λ n. ltb current n ≡ false) ns
    not_larger [] q = tt
    not_larger (n ∷ ns) (q, qs) = (ground arith, not_larger ns qs)

contains-get_or : (a : ℕ) (ns : List ℕ) → contains a ns ≡ true → contains (get_or ns 0 0) ns ≡ true
contains-get_or a [] h = cc
contains-get_or a (n ∷ ns) h = ground arith

-- The next width is one of the steps.
next_cycled_column_width-contains :
    (current min_width max_width : ℕ)
    → 1 ≤ min_width
    → min_width ≤ max_width
    → contains
        (next_cycled_column_width current min_width max_width)
        (cycle_steps min_width max_width)
      ≡ true
unfolding next_cycled_column_width
next_cycled_column_width-contains current min_width max_width p h =
    sym (contains-steps _ min_width max_width)
    ∙ elim (Option-cases (find (λ width. ltb current width) (steps min_width max_width))) [
      | inl e ↦ rw e (
          contains-get_or max_width (steps min_width max_width)
            (max_width-step min_width max_width p h))
      | inr (a, e) ↦ rw e (find-contains _ _ a e)
    ]

-- Below the largest width, no step lies strictly between the current width and the next one.
next_cycled_column_width_least :
    (current min_width max_width step : ℕ)
    → 1 ≤ min_width
    → min_width ≤ max_width
    → current < max_width
    → contains step (cycle_steps min_width max_width) ≡ true
    → current < step
    → next_cycled_column_width current min_width max_width ≤ step
unfolding next_cycled_column_width
next_cycled_column_width_least current min_width max_width step p h k c l =
    elim (Option-cases (find (λ width. ltb current width) (steps min_width max_width))) [
      | inl e ↦
          elim (find_complete _ _ max_width (max_width-step min_width max_width p h) (ground arith)
            e) [ ]
      | inr (a, e) ↦ rw e (
          find_least _ (steps min_width max_width) a step
            (dedup-IsSorted _ (sort-IsSorted (cycle_steps min_width max_width))) e
            (contains-steps step min_width max_width ∙ c) (ground (arith, l)))
    ]

-- Between bounds that are in order and at least one pixel, the next width of the cycle is within them,
-- and it is one of the steps. For a width below the largest one it is the smallest step that is
-- greater; from the largest width on, it is the smallest step.
pub next_cycled_column_width-cycles :
    (current min_width max_width step : ℕ)
    → 1 ≤ min_width
    → min_width ≤ max_width
    → contains step (cycle_steps min_width max_width) ≡ true
    → (min_width ≤ next_cycled_column_width current min_width max_width)
      × (next_cycled_column_width current min_width max_width ≤ max_width)
      × (contains
            (next_cycled_column_width current min_width max_width)
            (cycle_steps min_width max_width)
          ≡ true)
      × (((current < max_width)
            × (current < next_cycled_column_width current min_width max_width)
            × ((step ≤ current) ⊎ (next_cycled_column_width current min_width max_width ≤ step)))
          ⊎ ((max_width ≤ current) × (next_cycled_column_width current min_width max_width ≤ step)))
next_cycled_column_width-cycles current min_width max_width step p h c =
    let (low, high) = next_cycled_column_width-InRange current min_width max_width p h in
    (
      low,
      high,
      next_cycled_column_width-contains current min_width max_width p h,
      elim (Bool-cases (ltb current max_width)) [
        | inl t ↦ inl (
          ground (arith, t),
          next_cycled_column_width-grows current min_width max_width p h (ground (arith, t)),
          elim (Bool-cases (ltb current step)) [
            | inl u ↦ inr (
                next_cycled_column_width_least current min_width max_width step p h
                  (ground (arith, t)) c (ground (arith, u)))
            | inr u ↦ inl (ground (arith, u))
          ],
        )
        | inr f ↦ inr (
          ground (arith, f),
          next_cycled_column_width-wraps current min_width max_width step p h (ground (arith, f)) c,
        )
      ],
    )
