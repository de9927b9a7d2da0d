-- ===== src/Apply/Validation.antt =====
-- The check of the windows after an apply, in crates/wm-core/src/runtime/validation.rs. What the
-- platform shows, and what is still to be done according to the planner, are arguments.
use Prim.Native.String.{◌++◌}
use flowtile_wm.Base.{
  ℕ, ◌+◌, Bool, false, not, ◌&&◌, ◌||◌, Option, none, some, String, List, [], ◌∷◌, if◌then◌else◌,
  ◌==◌, length, any, is_empty, is_some_and, Result, ok, err, and_then, retain, ◌++◌ as append,
}
use flowtile_wm.Base.Text.{eq_text, decimal}
use flowtile_wm.Base.Words.{wrap_u32}
use flowtile_wm.Apply.Platform.{
  PlatformSnapshot, PlatformWindowSnapshot, ApplyOperation, window_by_hwnd,
}
use flowtile_wm.Apply.Policy.{
  operations_are_activation_only, should_defer_post_apply_retry, classify_window_visual_safety,
  is_safe, should_skip_strict_geometry_revalidation, should_auto_unwind_after_desync,
  has_transient_topology_churn,
}

-- An operation that only activates.
abbrev pub activation_of : ApplyOperation → ApplyOperation
activation_of operation = record operation {
  apply_geometry = false;
  suppress_visual_gap = false;
  window_switch_animation = none;
}

unfoldable pub filter_validatable_operations : List ApplyOperation → List ApplyOperation
filter_validatable_operations operations =
    retain (λ operation. operation.apply_geometry || operation.activate) operations

-- What is left of an operation on a window, if anything.
unfoldable pub validatable_part : PlatformWindowSnapshot → ApplyOperation → Option ApplyOperation
validatable_part window operation =
    let activation = if operation.activate then some (activation_of operation) else none in
    if should_skip_strict_geometry_revalidation window.process_name window.class_name
    then activation
    else if is_safe (classify_window_visual_safety window.process_name window.class_name)
    then some operation
    else activation

-- `filter_map`.
abbrev pub filter_map {ℓ κ} : {A : Type ℓ} {B : Type κ} → (A → Option B) → List A → List B
filter_map f [] = []
filter_map f (x ∷ xs) = let rest = filter_map f xs in elim (f x) [ none ↦ rest | some y ↦ y ∷ rest ]

unfoldable pub filter_validatable_operations_for_snapshot :
    PlatformSnapshot → List ApplyOperation → List ApplyOperation
unfolding filter_validatable_operations validatable_part
filter_validatable_operations_for_snapshot snapshot operations =
    filter_map
      (λ operation.
        and_then (window_by_hwnd operation.hwnd snapshot.windows)
          (λ window. validatable_part window operation))
      (filter_validatable_operations operations)

-- What the check reads and writes of the runtime.
pub record Health : Type 0 where
  pub consecutive_desync_cycles : ℕ
  pub management_enabled : Bool
  pub degraded_flags : List String

-- What the platform, the planner and the focus bookkeeping show in one cycle. An error of a scan stands
-- for one of the scan or of the planning after it.
pub record Cycle : Type 0 where
  pub dry_run : Bool
  pub planned_operations : ℕ
  pub observation_reason : Option String
  pub observed_window_count : ℕ
  pub discovered_windows : ℕ
  pub destroyed_windows : ℕ
  pub first_scan : Result String PlatformSnapshot
  pub adapted_platform_min_width : Bool
  pub remaining : List ApplyOperation
  pub holds_focus : Bool
  pub retry : Result String Unit
  pub second_scan : Result String PlatformSnapshot
  pub remaining_after_retry : List ApplyOperation
  pub cleanup_error : Option String

unfoldable pub push_degraded_reason : String → Health → Health
push_degraded_reason reason h =
    if any (λ flag. eq_text flag reason) h.degraded_flags
    then h
    else record h { degraded_flags = append h.degraded_flags (reason ∷ []) }

-- `if let Err(error) = self.adapter.clear_window_presentations(..)`.
unfoldable pub note_cleanup : Option String → Health → Health
unfolding push_degraded_reason
note_cleanup none h = h
note_cleanup (some error) h = push_degraded_reason ("presentation-cleanup-failed:" ++ error) h

unfoldable pub request_emergency_unwind : Option String → String → Health → Health
unfolding push_degraded_reason note_cleanup
request_emergency_unwind cleanup_error reason h =
    push_degraded_reason ("emergency-unwind:" ++ reason)
      (note_cleanup cleanup_error (record h { management_enabled = false }))

-- An action that names a number of operations.
unfoldable pub counted : String → List ApplyOperation → String → String
unfolding decimal
counted before operations after = before ++ decimal (length operations) ++ after

abbrev pub settled : Health → Health
settled h = record h { consecutive_desync_cycles = 0 }

-- The operations that remain after the retry, and are not only activations.
unfoldable pub escalate : Cycle → ℕ → ℕ → Health → List String × Health
unfolding counted request_emergency_unwind push_degraded_reason
escalate cycle validation_count post_retry_count h =
    let operations = cycle.remaining_after_retry in
    let raised = record h {
      consecutive_desync_cycles = wrap_u32 (h.consecutive_desync_cycles + 1);
    } in
    let flagged =
      push_degraded_reason (counted "desync:remaining-operations:" operations "") raised in
    let action = counted "full-scan-escalation:" operations "-ops-still-diverged" in
    if has_transient_topology_churn cycle.observed_window_count validation_count post_retry_count
      cycle.discovered_windows cycle.destroyed_windows
    then (
      counted "topology-churn-hold:" operations "-ops-still-diverged" ∷ [],
      push_degraded_reason "desync:topology-churn" (settled h),
    )
    else if should_auto_unwind_after_desync operations flagged.consecutive_desync_cycles
    then (
      action ∷ "safe-mode-unwind" ∷ [],
      request_emergency_unwind cycle.cleanup_error "desync-recovery-escalated" flagged,
    )
    else (action ∷ [], flagged)

-- From the retry on.
unfoldable pub after_retry :
    Cycle → PlatformSnapshot → PlatformSnapshot → Health → List String × Health
after_retry cycle validation_snapshot post_retry_snapshot h =
    if is_empty cycle.remaining_after_retry
    then ("retry-recovered" ∷ [], settled h)
    else if operations_are_activation_only post_retry_snapshot cycle.remaining_after_retry
    then (
      counted "activation-only-degraded:" cycle.remaining_after_retry "-ops-remain" ∷ [],
      push_degraded_reason "activation:foreground-refused" (settled h),
    )
    else escalate cycle (length validation_snapshot.windows) (length post_retry_snapshot.windows) h

unfoldable pub retry_cycle :
    Cycle → PlatformSnapshot → Health → Result String (List String) × Health
retry_cycle cycle snapshot h =
    let diverged = push_degraded_reason "desync:post-apply-diverged" h in
    let retried = counted "targeted-retry:" cycle.remaining "-ops-remain" in
    elim cycle.retry [
      | err error ↦ (err error, diverged)
      | ok _ ↦ elim cycle.second_scan [
        | err error ↦ (err error, diverged)
        | ok post_retry_snapshot ↦
            let (actions, after) = after_retry cycle snapshot post_retry_snapshot diverged in
            (ok (retried ∷ actions), after)
      ]
    ]

unfoldable pub check_snapshot :
    Cycle → PlatformSnapshot → Health → Result String (List String) × Health
check_snapshot cycle snapshot h =
    if is_empty cycle.remaining
    then (ok ("post-apply-validation-clean" ∷ []), settled h)
    else if operations_are_activation_only snapshot cycle.remaining
    then (
      ok (counted "activation-only-degraded:" cycle.remaining "-ops-remain" ∷ []),
      push_degraded_reason "activation:foreground-refused" (settled h),
    )
    else if not cycle.adapted_platform_min_width
        && is_some_and cycle.observation_reason should_defer_post_apply_retry
    then (ok (counted "post-apply-settling:" cycle.remaining "-ops-remain" ∷ []), settled h)
    else if cycle.holds_focus
    then (
      ok (counted "focus-stabilization-hold:" cycle.remaining "-ops-remain" ∷ []),
      push_degraded_reason "focus:stabilization-hold" (settled h),
    )
    else retry_cycle cycle snapshot h

unfoldable pub validate_after_apply : Cycle → Health → Result String (List String) × Health
validate_after_apply cycle h =
    if cycle.dry_run || not h.management_enabled || cycle.planned_operations == 0
    then (ok [], h)
    else elim cycle.first_scan [
      | err error ↦ (err error, h)
      | ok snapshot ↦ check_snapshot cycle snapshot h
    ]
