-- ===== src/Store/Diagnostics.antt =====
-- The records of crates/diagnostics/src/lib.rs that the reducer writes.
use Prim.Native.String.{◌++◌}
use flowtile_wm.Base.{ℕ, Option, some, String}
use flowtile_wm.Base.Text.{decimal}
use flowtile_wm.Domain.{CorrelationId, WorkspaceId}

pub data DiagnosticLevel : Type 0 where
  info warning error : DiagnosticLevel

pub data DiagnosticStage : Type 0 where
  event_transition layout_recompute validation : DiagnosticStage

pub record DiagnosticRecord : Type 0 where
  pub level : DiagnosticLevel
  pub stage : DiagnosticStage
  pub message : String
  pub state_version : Option ℕ
  pub correlation_id : Option CorrelationId

unfoldable pub transition_applied : ℕ → CorrelationId → String → DiagnosticRecord
transition_applied state_version correlation_id event_label = record {
  level = info;
  stage = event_transition;
  message = "applied transition for " ++ event_label;
  state_version = some state_version;
  correlation_id = some correlation_id;
}

unfoldable pub layout_recomputed : ℕ → CorrelationId → WorkspaceId → ℕ → DiagnosticRecord
layout_recomputed state_version correlation_id workspace_id window_count = record {
  level = info;
  stage = layout_recompute;
  message =
      "recomputed workspace "
      ++ (decimal workspace_id ++ (" with " ++ (decimal window_count ++ " projected windows")));
  state_version = some state_version;
  correlation_id = some correlation_id;
}
