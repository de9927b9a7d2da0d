-- ===== src/Frame/Reports.antt =====
-- What `dispatch` of crates/wm-core/src/state_store.rs reports of an event that succeeds.
use flowtile_wm.Base.{
  ℕ, ◌+◌, ◌≡◌, refl, ◌∙◌, Option, none, some, List, [], ◌∷◌, map, All, length, Result, ok, err,
  Ensures, Ensures-bind, Ensures-ok, Ensures-err, Result-cases, inl, inr,
}
use flowtile_wm.Base.Words.{wrap_u64}
use flowtile_wm.Domain.{WorkspaceId, WmState, DomainEvent, bump_state_version, event_name_as_str}
use flowtile_wm.Store.{
  CoreError, dispatch, apply_event, affected_layout, summarize, finish_transition, TransitionResult,
  transition_records, transition_applied, layout_recomputed, DiagnosticRecord, DiagnosticStage,
  event_transition, layout_recompute, resume, ◌>>=◌, modify, asks, choose, reads, pure,
}
use flowtile_wm.Layout.{WorkspaceLayoutProjection, recompute_workspace}
use flowtile_wm.Frame.Relation.{Frame-refl}
use flowtile_wm.Frame.Handlers.{apply_event-Frame}

-- What a record of a transition says of the event and of the state after it.
pub record IsRecordOf (e : DomainEvent) (s : WmState) (r : DiagnosticRecord) : Type 0 where
  pub version : r.state_version ≡ some s.runtime.state_version
  pub correlation : r.correlation_id ≡ some e.correlation_id

-- The stages that have records.
abbrev pub stages : Option WorkspaceId → List DiagnosticStage
stages none = event_transition ∷ []
stages (some id) = event_transition ∷ layout_recompute ∷ []

-- The layout is that of the affected workspace in a state.
abbrev pub IsLayout : WmState → Option WorkspaceId → Option WorkspaceLayoutProjection → Type 0
IsLayout s none projection = projection ≡ none
IsLayout s (some id) projection =
    (p : WorkspaceLayoutProjection) × (projection ≡ some p)
    × (recompute_workspace s id ≡ ok p)
    × (p.workspace_id ≡ id)

-- What a transition from one state to another reports.
pub record Reports (e : DomainEvent) (s₀ s : WmState) (t : TransitionResult) : Type 0 where
  pub version : t.state_version ≡ s.runtime.state_version
  pub records : All (IsRecordOf e s) t.diagnostics
  pub record_stages : map (λ r. r.stage) t.diagnostics ≡ stages t.affected_workspace_id
  pub layout : IsLayout s t.affected_workspace_id t.layout_projection
  pub summary_version : s.diagnostics_summary.last_state_version ≡ s.runtime.state_version
  pub label : s.diagnostics_summary.last_transition_label ≡ some (event_name_as_str e.event_id)
  pub total :
      s.diagnostics_summary.total_records
      ≡ wrap_u64 (s₀.diagnostics_summary.total_records + length t.diagnostics)

recompute-id :
    (s : WmState) (id : WorkspaceId) → Ensures (λ p. p.workspace_id ≡ id) (recompute_workspace s id)
unfolding recompute_workspace
recompute-id s id = search (Ensures-bind, Ensures-ok) depth 8

-- The layout does not depend on the summary.
recompute-summarize :
    (e : DomainEvent) (v n : ℕ) (s : WmState) (id : WorkspaceId)
    → recompute_workspace (summarize e v n s) id ≡ recompute_workspace s id
unfolding recompute_workspace summarize
recompute-summarize e v n s id = refl

finish-Reports :
    (e : DomainEvent) (o : Option WorkspaceId) (s₀ s : WmState)
    → s.diagnostics_summary ≡ s₀.diagnostics_summary
    → Ensures (Reports e s₀ (finish_transition e o s).1) (finish_transition e o s).0
unfolding finish_transition affected_layout bump_state_version summarize ◌>>=◌ modify asks choose
    reads pure transition_records transition_applied layout_recomputed
finish-Reports e none s₀ s h = Ensures-ok _ _ record {
  version = refl;
  records = (record { version = refl; correlation = refl }, tt);
  record_stages = refl;
  layout = refl;
  summary_version = refl;
  label = refl;
  total = rw h refl;
}
finish-Reports e (some id) s₀ s h =
    let s' = record s {
      runtime = record s.runtime { state_version = wrap_u64 (s.runtime.state_version + 1) };
    } in
    elim (Result-cases (recompute_workspace s' id)) [
      | inl (p, k) ↦ rw k (
          Ensures-ok _ _ (record {
            version = refl;
            records = (
              record { version = refl; correlation = refl },
              (record { version = refl; correlation = refl }, tt),
            );
            record_stages = refl;
            layout = (p, refl, recompute-summarize e _ 2 s' id ∙ k, (recompute-id s' id).holds _ k);
            summary_version = refl;
            label = refl;
            total = rw h refl;
          }))
      | inr (x, k) ↦ rw k (Ensures-err _ _)
    ]

-- What a dispatch that succeeds returns agrees with the state it leaves. The version that it reports,
-- that of each of its records and that of the summary are the state's; each record has the event's
-- correlation id. The stages of the records are that of the event and, exactly if the event affected a
-- workspace, that of a layout. The layout is then the one that the state left gives for that workspace,
-- and otherwise there is none. The summary has the label of the event, and its total grows by the number
-- of the records, in `u64` arithmetic.
pub dispatch-Reports :
    (e : DomainEvent) (s : WmState) → Ensures (Reports e s (dispatch e s).1) (dispatch e s).0
unfolding dispatch ◌>>=◌
dispatch-Reports e s =
    let (r, s') = apply_event e.payload s in
    after r s' ((apply_event-Frame {s₀ = s} e.payload).at s (Frame-refl s)).diagnostics
  where
    after :
        (r : Result CoreError (Option WorkspaceId)) (s' : WmState)
        → s'.diagnostics_summary ≡ s.diagnostics_summary
        → Ensures
            (Reports e s (resume r (finish_transition e) s').1)
            (resume r (finish_transition e) s').0
    after (ok o) s' h = finish-Reports e o s s' h
    after (err x) s' h = Ensures-err _ _
