-- ===== src/Apply/Platform.antt =====
-- Snapshots of the platform and operations on its windows, in crates/windows-adapter/src/lib.rs.
use flowtile_wm.Base.{
  ℕ, eqb_ℤ, Bool, true, false, not, ◌&&◌, Option, none, some, String, List, [], ◌∷◌, map, reverse,
  if◌then◌else◌, ◌==◌, eq_option, find, any, retain, is_empty, or_else, map_some,
}
use flowtile_wm.Base.Text.{eq_text}
use flowtile_wm.Domain.{Rect}

pub record PlatformMonitorSnapshot : Type 0 where
  pub binding : String
  pub work_area_rect : Rect
  pub dpi : ℕ
  pub is_primary : Bool

pub record PlatformWindowSnapshot : Type 0 where
  pub hwnd : ℕ
  pub title : String
  pub class_name : String
  pub process_id : ℕ
  pub process_name : Option String
  pub rect : Rect
  pub monitor_binding : String
  pub is_visible : Bool
  pub is_focused : Bool
  pub management_candidate : Bool

pub record PlatformSnapshot : Type 0 where
  pub foreground_hwnd : Option ℕ
  pub monitors : List PlatformMonitorSnapshot
  pub windows : List PlatformWindowSnapshot

pub record WindowSwitchAnimation : Type 0 where
  pub from_rect : Rect
  pub duration_ms : ℕ
  pub frame_count : ℕ

pub data WindowOpacityMode : Type 0 where
  direct_layered browser_surrogate overlay_dim : WindowOpacityMode

pub record WindowVisualEmphasis : Type 0 where
  pub opacity_alpha : Option ℕ
  pub opacity_mode : WindowOpacityMode
  pub force_clear_layered_style : Bool
  pub disable_visual_effects : Bool
  pub border_color_rgb : Option ℕ
  pub border_thickness_px : ℕ
  pub rounded_corners : Bool

pub data WindowPresentationMode : Type 0 where
  native_visible native_hidden surrogate_visible surrogate_clipped : WindowPresentationMode

pub record WindowSurrogateClip : Type 0 where
  pub destination_rect : Rect
  pub source_rect : Rect
  pub native_visible_rect : Rect

pub data WindowMonitorSceneSliceKind : Type 0 where
  foreign_monitor_surrogate : WindowMonitorSceneSliceKind

pub record WindowMonitorSceneSlice : Type 0 where
  pub kind : WindowMonitorSceneSliceKind
  pub monitor_rect : Rect
  pub destination_rect : Rect
  pub source_rect : Rect
  pub native_visible_rect : Rect

pub record WindowMonitorScene : Type 0 where
  pub home_visible_rect : Option Rect
  pub slices : List WindowMonitorSceneSlice

pub record WindowPresentation : Type 0 where
  pub mode : WindowPresentationMode
  pub surrogate : Option WindowSurrogateClip
  pub monitor_scene : WindowMonitorScene

abbrev pub default_presentation : WindowPresentation
default_presentation = record {
  mode = native_visible;
  surrogate = none;
  monitor_scene = record { home_visible_rect = none; slices = [] };
}

pub record ApplyOperation : Type 0 where
  pub hwnd : ℕ
  pub rect : Rect
  pub apply_geometry : Bool
  pub activate : Bool
  pub suppress_visual_gap : Bool
  pub window_switch_animation : Option WindowSwitchAnimation
  pub visual_emphasis : Option WindowVisualEmphasis
  pub presentation : WindowPresentation

-- `==` on rectangles and monitors.
abbrev pub eq_rect : Rect → Rect → Bool
eq_rect a b = eqb_ℤ a.x b.x && eqb_ℤ a.y b.y && a.width == b.width && a.height == b.height

abbrev eq_bool : Bool → Bool → Bool
eq_bool true b = b
eq_bool false b = not b

abbrev eq_monitor : PlatformMonitorSnapshot → PlatformMonitorSnapshot → Bool
eq_monitor a b =
    eq_text a.binding b.binding
    && eq_rect a.work_area_rect b.work_area_rect
    && a.dpi == b.dpi
    && eq_bool a.is_primary b.is_primary

abbrev eq_monitors : List PlatformMonitorSnapshot → List PlatformMonitorSnapshot → Bool
eq_monitors [] [] = true
eq_monitors (m ∷ ms) (n ∷ ns) = eq_monitor m n && eq_monitors ms ns
eq_monitors _ _ = false

unfoldable pub needs_geometry_apply : Rect → Rect → Bool
needs_geometry_apply actual desired = not (eq_rect actual desired)

unfoldable pub needs_activation_apply : Option ℕ → ℕ → Bool
needs_activation_apply actual_focused_hwnd desired_focused_hwnd =
    not (eq_option actual_focused_hwnd (some desired_focused_hwnd))

-- The window of a handle, in the map that a `collect` makes: the last one, if it occurs twice.
abbrev pub window_by_hwnd : ℕ → List PlatformWindowSnapshot → Option PlatformWindowSnapshot
window_by_hwnd hwnd windows = find (λ window. window.hwnd == hwnd) (reverse windows)

unfoldable pub missing_monitor_bindings : PlatformSnapshot → List String → List String
missing_monitor_bindings snapshot known_bindings =
    retain (λ binding. not (any (λ monitor. eq_text monitor.binding binding) snapshot.monitors))
      known_bindings

pub record SnapshotDiff : Type 0 where
  pub created_windows : List PlatformWindowSnapshot
  pub destroyed_hwnds : List ℕ
  pub focused_hwnd : Option ℕ
  pub monitor_topology_changed : Bool

-- Whether a snapshot has a window of the handle.
abbrev pub has_hwnd : ℕ → PlatformSnapshot → Bool
has_hwnd hwnd snapshot = any (λ window. window.hwnd == hwnd) snapshot.windows

unfoldable pub focused_window : PlatformSnapshot → Option PlatformWindowSnapshot
focused_window snapshot = find (λ window. window.is_focused) snapshot.windows

unfoldable pub actual_foreground_hwnd : PlatformSnapshot → Option ℕ
unfolding focused_window
actual_foreground_hwnd snapshot =
    or_else snapshot.foreground_hwnd (map_some (focused_window snapshot) (λ window. window.hwnd))

unfoldable pub initial_diff : PlatformSnapshot → SnapshotDiff
unfolding actual_foreground_hwnd
initial_diff snapshot = record {
  created_windows = snapshot.windows;
  destroyed_hwnds = [];
  focused_hwnd = actual_foreground_hwnd snapshot;
  monitor_topology_changed = not (is_empty snapshot.monitors);
}

unfoldable pub diff_snapshots : PlatformSnapshot → PlatformSnapshot → SnapshotDiff
unfolding actual_foreground_hwnd
diff_snapshots previous current = record {
  created_windows = retain (λ window. not (has_hwnd window.hwnd previous)) current.windows;
  destroyed_hwnds =
      map (λ window. window.hwnd)
        (retain (λ window. not (has_hwnd window.hwnd current)) previous.windows);
  focused_hwnd =
      if eq_option (actual_foreground_hwnd previous) (actual_foreground_hwnd current)
      then none
      else actual_foreground_hwnd current;
  monitor_topology_changed = not (eq_monitors previous.monitors current.monitors);
}
