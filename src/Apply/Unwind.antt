-- ===== src/Apply/Unwind.antt =====
-- When the check of crates/wm-core/src/runtime/validation.rs gives up managing the windows.
use flowtile_wm.Base.{
  ℕ, suc, ◌+◌, ◌≤◌, ◌≡◌, Bool, true, false, not, ◌&&◌, ◌||◌, List, [], ◌∷◌, if◌then◌else◌, ◌==◌,
  length, is_empty, is_some_and, ok, err, Result-cases, Bool-cases, inl, inr, arith,
}
use flowtile_wm.Base.Words.{wrap_u32}
use flowtile_wm.Apply.Platform.{PlatformSnapshot}
use flowtile_wm.Apply.Policy.{
  operations_are_activation_only, should_auto_unwind_after_desync, has_transient_topology_churn,
  should_defer_post_apply_retry,
}
use flowtile_wm.Apply.Validation.{
  Health, Cycle, push_degraded_reason, counted, settled, escalate, after_retry, retry_cycle,
  check_snapshot, validate_after_apply,
}
use flowtile_wm.Apply.Counter.{
  IsWithin, IsWithin-more, IsWithin-push, IsWithin-settled, Within, Within-pair, Within-if,
  IsWithin-unwind, unwinds-three, raised-IsWithin,
}

-- Whether windows diverge after the retry of a cycle, although no window came or went.
unfoldable pub is_diverged_at : Cycle → PlatformSnapshot → PlatformSnapshot → Bool
is_diverged_at cycle first second =
    not (is_empty cycle.remaining_after_retry)
    && not (operations_are_activation_only second cycle.remaining_after_retry)
    && not (
        has_transient_topology_churn cycle.observed_window_count (length first.windows)
          (length second.windows) cycle.discovered_windows cycle.destroyed_windows)

unfoldable pub is_diverged : Cycle → Bool
unfolding is_diverged_at
is_diverged cycle = elim cycle.first_scan [
  | err _ ↦ false
  | ok first ↦ elim cycle.second_scan [
    | err _ ↦ false
    | ok second ↦ is_diverged_at cycle first second
  ]
]

-- The latest cycle comes first.
unfoldable pub after_cycles : List Cycle → Health → Health
unfolding validate_after_apply
after_cycles [] h = h
after_cycles (c ∷ cs) h = (validate_after_apply c (after_cycles cs h)).1

abbrev pub diverged : List Cycle → ℕ
diverged [] = 0
diverged (c ∷ cs) = if is_diverged c then suc (diverged cs) else diverged cs

-- What a cycle may add to the bound.
abbrev bound : ℕ → Bool → ℕ
bound n raises = if raises then suc n else n

bound-le : (n : ℕ) (raises : Bool) → n ≤ bound n raises
bound-le n true = omega arith
bound-le n false = omega arith

module _ (c : Cycle) (n : ℕ) where
  escalate-churn :
      (vc pc : ℕ) (h : Health)
      → has_transient_topology_churn c.observed_window_count vc pc c.discovered_windows
          c.destroyed_windows
        ≡ true
      → IsWithin n h
      → Within n (escalate c vc pc h)
  unfolding escalate
  escalate-churn vc pc h t k =
      rw t (Within-pair n _ _ (IsWithin-push n _ _ (IsWithin-settled n h k)))

  escalate-steady :
      (vc pc : ℕ) (h : Health)
      → has_transient_topology_churn c.observed_window_count vc pc c.discovered_windows
          c.destroyed_windows
        ≡ false
      → IsWithin n h
      → Within (suc n) (escalate c vc pc h)
  unfolding escalate
  escalate-steady vc pc h f k =
      let operations = c.remaining_after_retry in
      let h₁ = record h {
        consecutive_desync_cycles = wrap_u32 (h.consecutive_desync_cycles + 1);
      } in
      let reason = counted "desync:remaining-operations:" operations "" in
      let h₂ = push_degraded_reason reason h₁ in
      let flagged = IsWithin-push (suc n) reason h₁ (raised-IsWithin n h k) in
      rw f (
        Within-if (suc n) (should_auto_unwind_after_desync operations h₂.consecutive_desync_cycles)
          _ _
          (λ t.
            let three = unwinds-three operations h₂.consecutive_desync_cycles t in
            let bound = flagged.counter in
            Within-pair (suc n) _ _ (
              IsWithin-unwind (suc n) c.cleanup_error "desync-recovery-escalated" h₂
                (omega (arith, three, bound)) flagged))
          (λ _. Within-pair (suc n) _ h₂ flagged))

  after_retry-Within :
      (first second : PlatformSnapshot) (h : Health)
      → IsWithin n h
      → Within (bound n (is_diverged_at c first second)) (after_retry c first second h)
  unfolding after_retry is_diverged_at
  after_retry-Within first second h k = elim (Bool-cases (is_empty c.remaining_after_retry)) [
    | inl t ↦ rw t (Within-pair n _ _ (IsWithin-settled n h k))
    | inr f ↦ elim (Bool-cases (operations_are_activation_only second c.remaining_after_retry)) [
      | inl t ↦ rw (f, t) (Within-pair n _ _ (IsWithin-push n _ _ (IsWithin-settled n h k)))
      | inr g ↦
          elim (Bool-cases (
            has_transient_topology_churn c.observed_window_count (length first.windows)
              (length second.windows) c.discovered_windows c.destroyed_windows)) [
                | inl t ↦ rw (f, g, t) (escalate-churn _ _ h t k)
                | inr e ↦ rw (f, g, e) (escalate-steady _ _ h e k)
              ]
    ]
  ]

module _ (c : Cycle) (n : ℕ) where
  retry_cycle-Within :
      (first : PlatformSnapshot) (h : Health)
      → c.first_scan ≡ ok first
      → IsWithin n h
      → Within (bound n (is_diverged c)) (retry_cycle c first h)
  unfolding retry_cycle is_diverged
  retry_cycle-Within first h e k =
      let diverging = IsWithin-push n "desync:post-apply-diverged" h k in
      elim (Result-cases c.retry) [
        | inr (x, r) ↦
            rw r (Within-pair _ _ _ (IsWithin-more n _ _ (bound-le n (is_diverged c)) diverging))
        | inl (x, r) ↦ elim (Result-cases c.second_scan) [
          | inr (y, q) ↦ rw (e, r, q) (Within-pair n _ _ diverging)
          | inl (second, q) ↦
              rw (e, r, q)
                (Within-pair _ _ _
                  (after_retry-Within (record c { first_scan = ok first }) n first second _
                    diverging).within)
        ]
      ]

  check_snapshot-Within :
      (first : PlatformSnapshot) (h : Health)
      → c.first_scan ≡ ok first
      → IsWithin n h
      → Within (bound n (is_diverged c)) (check_snapshot c first h)
  unfolding check_snapshot
  check_snapshot-Within first h e k =
      let more =
        IsWithin-more n _ (settled h) (bound-le n (is_diverged c)) (IsWithin-settled n h k) in
      let flagged = IsWithin-push (bound n (is_diverged c)) in
      Within-if _ (is_empty c.remaining) _ _ (λ _. Within-pair _ _ _ more)
        (λ _.
          Within-if _ (operations_are_activation_only first c.remaining) _ _
            (λ _. Within-pair _ _ _ (flagged "activation:foreground-refused" (settled h) more))
            (λ _.
              Within-if _
                (not c.adapted_platform_min_width
                  && is_some_and c.observation_reason should_defer_post_apply_retry)
                _ _ (λ _. Within-pair _ _ _ more)
                (λ _.
                  Within-if _ c.holds_focus _ _
                    (λ _. Within-pair _ _ _ (flagged "focus:stabilization-hold" (settled h) more))
                    (λ _. retry_cycle-Within first h e k))))

  validate_after_apply-Within :
      (h : Health) → IsWithin n h → Within (bound n (is_diverged c)) (validate_after_apply c h)
  unfolding validate_after_apply
  validate_after_apply-Within h k =
      let more = IsWithin-more n _ h (bound-le n (is_diverged c)) k in
      Within-if _ (c.dry_run || not h.management_enabled || c.planned_operations == 0) _ _
        (λ _. Within-pair _ _ _ more)
        (λ _. elim (Result-cases c.first_scan) [
          | inr (x, e) ↦ simp e (Within-pair _ _ _ more)
          | inl (first, e) ↦ simp e (check_snapshot-Within first h e k)
        ])

after_cycles-IsWithin :
    (cs : List Cycle) (h : Health) → IsWithin 0 h → IsWithin (diverged cs) (after_cycles cs h)
unfolding after_cycles
after_cycles-IsWithin [] h k = k
after_cycles-IsWithin (c ∷ cs) h k =
    (validate_after_apply-Within c (diverged cs) (after_cycles cs h)
      (after_cycles-IsWithin cs h k)).within

-- From a runtime that manages windows and has counted no desync, only three cycles or more in which
-- windows still diverged after the retry, while no window came or went, stop the management.
pub unwind-le_diverged :
    (cs : List Cycle) (h : Health)
    → h.consecutive_desync_cycles ≡ 0
    → h.management_enabled ≡ true
    → (after_cycles cs h).management_enabled ≡ false
    → 3 ≤ diverged cs
unwind-le_diverged cs h e m s =
    (after_cycles-IsWithin cs h
        (record { counter = omega (arith, e); stops = λ k. absurd (clash k) })).stops
      s
  where
    clash : h.management_enabled ≡ false → ⊥
    clash k = let l = rw m at k in cc
