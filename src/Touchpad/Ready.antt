-- ===== src/Touchpad/Ready.antt =====
-- What a ready touchpad override of apps/core-daemon/src/touchpad/assessment.rs can rely on.
use flowtile_wm.Base.{
  ◌≡◌, refl, ap, ◌∙◌, Bool, true, false, not, length, All, Result, ok, err, and_then_ok-eq-ok,
  ok-injective, Bool-cases, if◌then◌else◌, ◌==◌, ==_iff, inl, inr, is_empty, arith,
}
use flowtile_wm.Base.Map.{empty}
use flowtile_wm.Base.Text.{eq_text}
use flowtile_wm.Touchpad.Gestures.{
  TouchpadConfig, TouchpadBindingSet, TouchpadListenerError, insert_bindings, from_config,
}
use flowtile_wm.Touchpad.Assessment.{
  TouchpadOverrideAssessment, SystemTouchGestureSetting, disabled, enabled, unknown,
  assess_bindings, assess_setting, assess_touchpad_override_with_system_setting,
}
use flowtile_wm.Touchpad.Inserts.{
  IsBound, AreDistinct, insert_bindings-IsBound, insert_bindings-AreDistinct,
}

-- The bindings that `assess_bindings` finds ready.
assess_bindings-ready :
    (config : TouchpadConfig) (setting : SystemTouchGestureSetting)
    (outcome : Result TouchpadListenerError TouchpadBindingSet)
    → eq_text (assess_bindings config setting outcome).status "ready" ≡ true
    → (set : TouchpadBindingSet) × (outcome ≡ ok set)
      × (length set.bindings ≡ length config.gestures)
      × (setting ≡ disabled)
unfolding assess_bindings assess_setting
assess_bindings-ready config setting (err error) h = cc
assess_bindings-ready config setting (ok set) h =
    elim (Bool-cases (length set.bindings == length config.gestures)) [
      | inr f ↦ absurd (refused (rw f at h))
      | inl t ↦ (set, refl, (==_iff _ _).0 t, by_setting setting (rw t at h))
    ]
  where
    refused : false ≡ true → ⊥
    refused k = cc

    by_setting :
        (other : SystemTouchGestureSetting)
        → eq_text (assess_setting config (length set.bindings) other).status "ready" ≡ true
        → other ≡ disabled
    by_setting disabled k = refl
    by_setting enabled k = cc
    by_setting (unknown message) k = cc

last_branch :
    (enabled_flag empty_flag : Bool) (off missing rest : TouchpadOverrideAssessment)
    → eq_text off.status "ready" ≡ false
    → eq_text missing.status "ready" ≡ false
    → eq_text
        (if not enabled_flag then off else if empty_flag then missing else rest).status
        "ready"
      ≡ true
    → (enabled_flag ≡ true) × (empty_flag ≡ false) × (eq_text rest.status "ready" ≡ true)
last_branch false empty_flag off missing rest a b h = cc
last_branch true true off missing rest a b h = cc
last_branch true false off missing rest a b h = (refl, refl, h)

-- If an override is ready, it is enabled and configured, the system leaves the gestures to it, every
-- configured gesture runs the command that is configured for it, and no two bindings configure the same
-- gesture.
pub ready-IsBound :
    (config : TouchpadConfig) (setting : SystemTouchGestureSetting)
    → (assess_touchpad_override_with_system_setting config setting).status ≡ "ready"
    → (set : TouchpadBindingSet) × (from_config config ≡ ok set)
      × All (IsBound set.bindings) config.gestures
      × AreDistinct config.gestures
      × (config.override_enabled ≡ true)
      × (is_empty config.gestures ≡ false)
      × (setting ≡ disabled)
unfolding assess_touchpad_override_with_system_setting from_config
ready-IsBound config setting h =
    let h' = ap (λ status. eq_text status "ready") h in
    let (on, some_gestures, found) =
      last_branch config.override_enabled (is_empty config.gestures) _ _
        (assess_bindings config setting (from_config config)) refl refl h' in
    let (set, q, same_length, free) =
      assess_bindings-ready config setting (from_config config) found in
    let (m, p, last) = and_then_ok-eq-ok (insert_bindings config.gestures empty) _ q in
    let inserted = p ∙ ap (λ (z : TouchpadBindingSet). ok z.bindings) (ok-injective _ set last) in
    (
      set,
      q,
      insert_bindings-IsBound config.gestures empty inserted (omega (arith, same_length)),
      insert_bindings-AreDistinct config.gestures empty inserted (omega (arith, same_length)),
      on,
      some_gestures,
      free,
    )
