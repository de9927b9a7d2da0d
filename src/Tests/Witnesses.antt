-- ===== src/Tests/Witnesses.antt =====
-- The theorems at concrete inputs.
use flowtile_wm.Base.{
  ℕ, ◌+◌, ◌≤◌, ◌<◌, ◌≡◌, refl, ◌⊎◌, inl, inr, ◌↔◌, ℤ, pos, negsuc, ◌≤ℤ◌, Bool, true, false, Option,
  none, some, List, [], ◌∷◌, ◌++◌, contains, max, ok, err, if◌then◌else◌, arith, Result, length,
  Ensures, is_empty, ◌/◌, ◌*◌, ◌+ℤ◌,
}
use flowtile_wm.Base.Words.{wrap_u64, sat_add_i32, as_i32}
use flowtile_wm.Domain.{
  normal, full, monitor_fraction, ColumnId, resolve, parse_runtime_mode, runtime_mode_as_str,
  safe_mode, parse_bind_control_mode, bind_control_mode_as_str, deep_override, default_overview,
}
use flowtile_wm.Domain.Extent.{resolve-bounds}
use flowtile_wm.Domain.Labels.{parse_modes_iff}
use flowtile_wm.Store.{
  cycle_steps, next_cycled_column_width, next_tab_index, insert_index, place_after, opened, closed,
}
use flowtile_wm.Store.CycleSteps.{next_cycled_column_width-cycles}
use flowtile_wm.Store.TabCycle.{next_tab_index-inverse}
use flowtile_wm.Store.Placement.{insert_index-le, place_after-cuts, others}
use flowtile_wm.Store.Shown.{overview-toggles}

next_cycled_column_width-cycles_example :
    (200 ≤ next_cycled_column_width 500 200 1200)
    × (next_cycled_column_width 500 200 1200 ≤ 1200)
    × (contains (next_cycled_column_width 500 200 1200) (cycle_steps 200 1200) ≡ true)
    × (((500 < 1200)
          × (500 < next_cycled_column_width 500 200 1200)
          × ((600 ≤ 500) ⊎ (next_cycled_column_width 500 200 1200 ≤ 600)))
        ⊎ ((1200 ≤ 500) × (next_cycled_column_width 500 200 1200 ≤ 600)))
unfolding flowtile_wm.Base.Words.clamp_u32
next_cycled_column_width-cycles_example =
    next_cycled_column_width-cycles 500 200 1200 600 (omega arith) (omega arith) refl

next_tab_index-inverse_example :
    (next_tab_index true 2 3 < 3) × (next_tab_index false (next_tab_index true 2 3) 3 ≡ 2)
next_tab_index-inverse_example = next_tab_index-inverse true 2 3 (omega arith)

resolve-bounds_example :
    (1 ≤ resolve (monitor_fraction 1 3) 1000)
    × (resolve (monitor_fraction 1 3) 1000 ≤ 1000)
    × (resolve (monitor_fraction 1 3) 1000 ≡ max (1000 * 1 / 3) 1)
resolve-bounds_example =
    resolve-bounds 1 3 1000 (omega arith) (omega arith) (omega arith) (omega arith)

parse_modes_iff_example :
    ((parse_runtime_mode "safe-mode" ≡ some safe_mode)
      ↔ ("safe-mode" ≡ runtime_mode_as_str safe_mode))
    × ((parse_bind_control_mode "safe-mode" ≡ some deep_override)
        ↔ ("safe-mode" ≡ bind_control_mode_as_str deep_override))
parse_modes_iff_example = parse_modes_iff "safe-mode" safe_mode deep_override

insert_index-le_example :
    insert_index
      (record {
        anchor_column_id = some 5;
        insert_index_override = none;
        before_anchor = false;
        mode = normal;
        width_semantics = full;
        preserve_focus_position = false;
      })
      (4 ∷ 5 ∷ [])
    ≤ 2
insert_index-le_example =
    insert_index-le
      (record {
        anchor_column_id = some 5;
        insert_index_override = none;
        before_anchor = false;
        mode = normal;
        width_semantics = full;
        preserve_focus_position = false;
      })
      (4 ∷ 5 ∷ [])

place_after-cuts_example :
    ((front : List ColumnId) × (back : List ColumnId) × (others 3 (1 ∷ 2 ∷ 3 ∷ [])
        ≡ front ++ 1 ∷ back)
      × (place_after 3 (some 1) (1 ∷ 2 ∷ 3 ∷ []) ≡ front ++ 1 ∷ 3 ∷ back))
    × (place_after 3 none (1 ∷ 2 ∷ 3 ∷ []) ≡ others 3 (1 ∷ 2 ∷ 3 ∷ []) ++ 3 ∷ [])
place_after-cuts_example = place_after-cuts 3 1 (1 ∷ 2 ∷ 3 ∷ []) refl

overview-toggles_example :
    (opened 1 2 (opened 1 2 default_overview) ≡ opened 1 2 default_overview)
    × (closed (closed default_overview) ≡ closed default_overview)
    × ((opened 1 2 default_overview).projection_version ≡ 0 + 1)
    × ((closed (opened 1 2 default_overview)).projection_version ≡ 0 + 2)
    × ((closed (opened 1 2 default_overview)).is_open ≡ false)
    × ((closed (opened 1 2 default_overview)).selection ≡ none)
overview-toggles_example = overview-toggles 1 2 default_overview refl (omega arith)
