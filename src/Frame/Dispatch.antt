-- ===== src/Frame/Dispatch.antt =====
-- What `dispatch` of crates/wm-core/src/state_store.rs does around the handler of an event.
use flowtile_wm.Base.{
  ℕ, ◌+◌, ◌≡◌, refl, ◌∙◌, Bool, true, false, Option, none, some, if◌then◌else◌, Result, ok, err,
  Result-cases, inl, inr,
}
use flowtile_wm.Base.Words.{wrap_u64}
use flowtile_wm.Domain.{WorkspaceId, WorkspaceSetId, WmState, DomainEvent, bump_state_version}
use flowtile_wm.Store.{
  CoreError, dispatch, apply_event, affected_layout, summarize, finish_transition, resume, ◌>>=◌,
  modify, asks, choose, reads, pure,
}
use flowtile_wm.Layout.{recompute_workspace}
use flowtile_wm.Keeps.{Keeps, keeps_rules}
use flowtile_wm.Frame.Relation.{Frame-refl, owner}
use flowtile_wm.Frame.Handlers.{apply_event-Frame}

-- Whether a result is a value.
abbrev pub is_ok {ℓ} : {E A : Type ℓ} → Result E A → Bool
is_ok (ok a) = true
is_ok (err e) = false

-- What no transition changes.
pub record Stable (s₀ s : WmState) : Type 0 where
  pub monitors : s.monitors ≡ s₀.monitors
  pub boot_mode : s.runtime.boot_mode ≡ s₀.runtime.boot_mode
  pub capture_policy : s.capture_policy ≡ s₀.capture_policy
  pub owners : (id : WorkspaceSetId) → owner s id ≡ owner s₀ id

module _ {s₀ : WmState} where
  apply_event-Stable : (e : DomainEvent) → Keeps (Stable s₀) (apply_event e.payload)
  apply_event-Stable e = record {
    at = λ s h.
        let f = (apply_event-Frame {s₀ = s} e.payload).at s (Frame-refl s) in
        record {
          monitors = f.monitors ∙ h.monitors;
          boot_mode = f.boot_mode ∙ h.boot_mode;
          capture_policy = f.capture_policy ∙ h.capture_policy;
          owners = λ id. f.owners id ∙ h.owners id;
        };
  }

  same_fields :
      (s : WmState) (f : WmState → WmState)
      → Stable s₀ s
      → (f s).monitors ≡ s.monitors
      → (f s).runtime.boot_mode ≡ s.runtime.boot_mode
      → (f s).capture_policy ≡ s.capture_policy
      → (f s).workspace_sets ≡ s.workspace_sets
      → Stable s₀ (f s)
  same_fields s f h m b c w = record {
    monitors = m ∙ h.monitors;
    boot_mode = b ∙ h.boot_mode;
    capture_policy = c ∙ h.capture_policy;
    owners = λ id. rw w (h.owners id);
  }

  bump-Stable : (s : WmState) → Stable s₀ s → Stable s₀ (bump_state_version s)
  unfolding bump_state_version
  bump-Stable s h = same_fields s bump_state_version h refl refl refl refl

  summarize-Stable :
      (e : DomainEvent) (v n : ℕ) (s : WmState) → Stable s₀ s → Stable s₀ (summarize e v n s)
  unfolding summarize
  summarize-Stable e v n s h = same_fields s (summarize e v n) h refl refl refl refl

  affected_layout-Stable : (o : Option WorkspaceId) → Keeps (Stable s₀) (affected_layout o)
  unfolding affected_layout
  affected_layout-Stable o = search keeps_rules depth 8

  finish-Stable :
      (e : DomainEvent) (o : Option WorkspaceId) → Keeps (Stable s₀) (finish_transition e o)
  unfolding finish_transition
  finish-Stable e o =
      search (keeps_rules, bump-Stable, summarize-Stable, affected_layout-Stable) depth 12

  dispatch-Keeps : (e : DomainEvent) → Keeps (Stable s₀) (dispatch e)
  unfolding dispatch
  dispatch-Keeps e = search (keeps_rules, apply_event-Stable, finish-Stable) depth 5

-- Whatever the event and whatever the state, and also when the dispatch fails, no dispatch changes
-- the monitors, the boot mode, the capture policy or the monitor that a workspace set belongs to.
pub dispatch-Stable : (e : DomainEvent) (s : WmState) → Stable s (dispatch e s).1
dispatch-Stable e s =
    (dispatch-Keeps e).at s
      (record { monitors = refl; boot_mode = refl; capture_policy = refl; owners = λ id. refl })

affected_layout-state : (o : Option WorkspaceId) (s : WmState) → (affected_layout o s).1 ≡ s
unfolding affected_layout choose ◌>>=◌ reads pure
affected_layout-state none s = refl
affected_layout-state (some id) s = elim (Result-cases (recompute_workspace s id)) [
  | inl (p, h) ↦ rw h refl
  | inr (x, h) ↦ rw h refl
]

finish-version :
    (e : DomainEvent) (o : Option WorkspaceId) (s : WmState)
    → (finish_transition e o s).1.runtime.state_version ≡ wrap_u64 (s.runtime.state_version + 1)
unfolding finish_transition affected_layout bump_state_version summarize ◌>>=◌ modify asks choose
    reads pure
finish-version e none s = refl
finish-version e (some id) s =
    elim (Result-cases (
      recompute_workspace
        (record s {
          runtime = record s.runtime { state_version = wrap_u64 (s.runtime.state_version + 1) };
        })
        id)) [ inl (p, h) ↦ rw h refl | inr (x, h) ↦ rw h refl ]

-- The version of the state goes up by one, in `u64` arithmetic, exactly when the handler of the
-- event succeeds: an event that is refused leaves it, and a layout that fails after the handler
-- does not take it back.
pub dispatch-version :
    (e : DomainEvent) (s : WmState)
    → (dispatch e s).1.runtime.state_version ≡ (
        if is_ok (apply_event e.payload s).0
        then wrap_u64 (s.runtime.state_version + 1)
        else s.runtime.state_version)
unfolding dispatch ◌>>=◌
dispatch-version e s =
    let (r, s') = apply_event e.payload s in
    after r s' ((apply_event-Frame {s₀ = s} e.payload).at s (Frame-refl s)).version
  where
    after :
        (r : Result CoreError (Option WorkspaceId)) (s' : WmState)
        → s'.runtime.state_version ≡ s.runtime.state_version
        → (resume r (finish_transition e) s').1.runtime.state_version
          ≡ (if is_ok r then wrap_u64 (s.runtime.state_version + 1) else s.runtime.state_version)
    after (ok o) s' h = rw (finish-version e o s', h) refl
    after (err x) s' h = h

-- An event that the handler refuses is refused with the handler's error, and leaves the version and
-- the summary of the diagnostics as they were; what else the handler wrote before it stays.
pub dispatch-refused :
    (e : DomainEvent) (s : WmState) (x : CoreError)
    → (apply_event e.payload s).0 ≡ err x
    → ((dispatch e s).0 ≡ err x)
      × ((dispatch e s).1 ≡ (apply_event e.payload s).1)
      × ((dispatch e s).1.runtime.state_version ≡ s.runtime.state_version)
      × ((dispatch e s).1.diagnostics_summary ≡ s.diagnostics_summary)
unfolding dispatch ◌>>=◌
dispatch-refused e s x h =
    let frame = (apply_event-Frame {s₀ = s} e.payload).at s (Frame-refl s) in
    rw h (refl, refl, frame.version, frame.diagnostics)
