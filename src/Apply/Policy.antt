-- ===== src/Apply/Policy.antt =====
-- The tests of crates/wm-core/src/runtime/apply_policy.rs.
use Prim.Native.Nat.{bit_or}
use flowtile_wm.Base.{
  ℕ, ◌*◌, Bool, true, false, not, ◌&&◌, ◌||◌, Option, none, some, String, List, [], ◌∷◌, map,
  if◌then◌else◌, ltb, leb, ◌==◌, contains, length, any, all, is_empty, is_none, is_some,
  is_some_and,
}
use flowtile_wm.Base.Text.{
  eq_text, codes, trim, to_ascii_lower, eq_codes, strip_suffix, contains_text,
}
use flowtile_wm.Domain.{WindowLayer, tiled}
use flowtile_wm.Apply.Platform.{
  PlatformSnapshot, ApplyOperation, WindowVisualEmphasis, direct_layered, overlay_dim,
  window_by_hwnd, needs_geometry_apply,
}

unfoldable pub operations_are_activation_only : PlatformSnapshot → List ApplyOperation → Bool
operations_are_activation_only snapshot operations =
    not (is_empty operations)
    && all
        (λ operation.
          operation.activate
          && is_some_and (window_by_hwnd operation.hwnd snapshot.windows)
              (λ window. not (needs_geometry_apply window.rect operation.rect)))
        operations

-- `is_ascii_alphanumeric`.
abbrev is_ascii_alphanumeric : ℕ → Bool
is_ascii_alphanumeric c =
    (leb 48 c && leb c 57) || (leb 65 c && leb c 90) || (leb 97 c && leb c 122)

unfoldable pub normalize_reason_token : String → List ℕ
normalize_reason_token value =
    map (λ c. if is_ascii_alphanumeric c || c == 45 then to_ascii_lower c else 45) (codes value)

unfoldable pub should_animate_workspace_switch : String → Bool
unfolding normalize_reason_token
should_animate_workspace_switch reason =
    contains_text (codes "focus-workspace-up") (normalize_reason_token reason)
    || contains_text (codes "focus-workspace-down") (normalize_reason_token reason)

-- The two reasons of a change of a column's width.
abbrev is_width_reason : String → Bool
is_width_reason reason =
    eq_text reason "manual-column-width-commit" || eq_text reason "manual-cycle-column-width"

unfoldable pub should_animate_tiled_geometry : String → Bool
unfolding should_animate_workspace_switch
should_animate_tiled_geometry reason =
    is_width_reason reason || should_animate_workspace_switch reason

unfoldable pub should_defer_post_apply_retry : String → Bool
should_defer_post_apply_retry reason = is_width_reason reason

unfoldable pub should_force_activation_reassert : String → Bool
should_force_activation_reassert reason = is_width_reason reason

unfoldable pub visual_emphasis_has_effect : WindowVisualEmphasis → Bool
visual_emphasis_has_effect emphasis =
    is_some emphasis.opacity_alpha
    || emphasis.force_clear_layered_style
    || is_some emphasis.border_color_rgb
    || not emphasis.disable_visual_effects

pub data WindowVisualSafety : Type 0 where
  safe_full_emphasis browser_opacity_only skip_visual_emphasis : WindowVisualSafety

unfoldable pub normalize_class_name : String → Option (List ℕ)
normalize_class_name class_name =
    let trimmed = trim (codes class_name) in
    if is_empty trimmed then none else some (map to_ascii_lower trimmed)

unfoldable pub normalize_process_name : Option String → Option (List ℕ)
normalize_process_name none = none
normalize_process_name (some process_name) =
    let trimmed = trim (codes process_name) in
    if is_empty trimmed
    then none
    else some (strip_suffix (codes ".exe") (map to_ascii_lower trimmed))

-- Whether a normalized name is one of some texts.
abbrev pub is_one_of : List String → Option (List ℕ) → Bool
is_one_of texts name = is_some_and name (λ n. any (λ text. eq_codes n (codes text)) texts)

abbrev browser_classes : List String
browser_classes = "chrome_widgetwin_0" ∷ "chrome_widgetwin_1" ∷ "mozillawindowclass" ∷ []

abbrev browser_processes : List String
browser_processes =
    "msedge" ∷ "chrome" ∷ "brave" ∷ "opera" ∷ "vivaldi" ∷ "chromium" ∷ "firefox" ∷ "librewolf"
    ∷ "waterfox" ∷ []

-- The title is not used, as in the source.
unfoldable pub classify_window_visual_safety : Option String → String → WindowVisualSafety
unfolding normalize_class_name normalize_process_name
classify_window_visual_safety process_name class_name =
    let class = normalize_class_name class_name in
    let process = normalize_process_name process_name in
    if is_none class && is_none process
    then skip_visual_emphasis
    else if is_one_of browser_classes class
    then browser_opacity_only
    else if is_one_of ("org.wezfurlong.wezterm" ∷ []) class
    then skip_visual_emphasis
    else if is_none process
    then safe_full_emphasis
    else if is_one_of browser_processes process
    then browser_opacity_only
    else if is_one_of ("wezterm-gui" ∷ []) process
    then skip_visual_emphasis
    else if is_one_of ("ayugram" ∷ []) process
    then skip_visual_emphasis
    else safe_full_emphasis

abbrev pub is_safe : WindowVisualSafety → Bool
is_safe safe_full_emphasis = true
is_safe _ = false

abbrev is_tiled : WindowLayer → Bool
is_tiled tiled = true
is_tiled _ = false

unfoldable pub should_suppress_visual_gap : WindowLayer → Option String → String → Bool
unfolding classify_window_visual_safety
should_suppress_visual_gap layer process_name class_name =
    is_tiled layer && is_safe (classify_window_visual_safety process_name class_name)

abbrev animates : WindowVisualSafety → Bool
animates skip_visual_emphasis = false
animates _ = true

unfoldable pub supports_tiled_window_switch_animation : Option String → String → Bool
unfolding classify_window_visual_safety
supports_tiled_window_switch_animation process_name class_name =
    animates (classify_window_visual_safety process_name class_name)

unfoldable pub should_skip_strict_geometry_revalidation : Option String → String → Bool
unfolding normalize_process_name classify_window_visual_safety
should_skip_strict_geometry_revalidation process_name class_name =
    is_one_of ("ayugram" ∷ "windowsterminal" ∷ []) (normalize_process_name process_name)
    || not (is_safe (classify_window_visual_safety process_name class_name))

-- `u32` bits; shifts by 8 and 16 of a `u8` stay within the word.
unfoldable pub rgb_color : ℕ → ℕ → ℕ → ℕ
rgb_color red green blue = bit_or (bit_or red (green * 256)) (blue * 65536)

unfoldable pub inactive_window_opacity_alpha : Bool → Option ℕ
inactive_window_opacity_alpha is_active_window = if is_active_window then none else some 208

-- The emphasis of a window with this safety.
unfoldable pub emphasis_for : WindowVisualSafety → Bool → WindowVisualEmphasis
unfolding inactive_window_opacity_alpha rgb_color
emphasis_for safe_full_emphasis is_active_window = record {
  opacity_alpha = inactive_window_opacity_alpha is_active_window;
  opacity_mode = direct_layered;
  force_clear_layered_style = is_active_window;
  disable_visual_effects = false;
  border_color_rgb = if is_active_window then some (rgb_color 0x4C 0xA8 0xFF) else none;
  border_thickness_px = 3;
  rounded_corners = true;
}
emphasis_for browser_opacity_only is_active_window = record {
  opacity_alpha = inactive_window_opacity_alpha is_active_window;
  opacity_mode = overlay_dim;
  force_clear_layered_style = is_active_window;
  disable_visual_effects = true;
  border_color_rgb = none;
  border_thickness_px = 3;
  rounded_corners = false;
}
emphasis_for skip_visual_emphasis is_active_window = record {
  opacity_alpha = none;
  opacity_mode = direct_layered;
  force_clear_layered_style = false;
  disable_visual_effects = true;
  border_color_rgb = none;
  border_thickness_px = 3;
  rounded_corners = false;
}

unfoldable pub build_visual_emphasis : Bool → Option String → String → WindowVisualEmphasis
unfolding emphasis_for classify_window_visual_safety
build_visual_emphasis is_active_window process_name class_name =
    emphasis_for (classify_window_visual_safety process_name class_name) is_active_window

-- The handles without their repetitions, as a `HashSet` has them.
abbrev pub distinct : List ℕ → List ℕ
distinct [] = []
distinct (h ∷ hs) = let rest = distinct hs in if contains h rest then rest else h ∷ rest

unfoldable pub should_auto_unwind_after_desync : List ApplyOperation → ℕ → Bool
should_auto_unwind_after_desync remaining_operations consecutive_desync_cycles =
    if ltb consecutive_desync_cycles 3
    then false
    else ltb 1 (length (distinct (map (λ operation. operation.hwnd) remaining_operations)))

unfoldable pub has_transient_topology_churn : ℕ → ℕ → ℕ → ℕ → ℕ → Bool
has_transient_topology_churn observed_window_count validation_window_count post_retry_window_count
      discovered_windows destroyed_windows =
    ltb 0 discovered_windows
    || ltb 0 destroyed_windows
    || not (validation_window_count == observed_window_count)
    || not (post_retry_window_count == validation_window_count)
