-- ===== src/Store/WidthAgreement.antt =====
-- The content width of a strip is computed twice: in `u32` by crates/layout-engine/src/lib.rs and in
-- `i32` by `workspace_content_width` of crates/wm-core/src/state_store.rs.
use flowtile_wm.Base.{
  ℕ, suc, ◌+◌, ◌≤◌, ◌≡◌, refl, sym, ◌∙◌, ap, ℤ, pos, some, none, List, [], ◌∷◌, if◌then◌else◌, ltb,
  ◌==◌, ok, err, Option-cases, inl, inr, Bool-cases, Ensures, Ensures-ok, Ensures-err, arith, ◌+ℤ◌,
}
use flowtile_wm.Base.Map.{get}
use flowtile_wm.Base.Words.{u32_max, i32_max, sat_add_u32, sat_add_i32, capped_i32, saturate_i32}
use flowtile_wm.Domain.{ColumnId, WmState, Column}
use flowtile_wm.Layout.{resolve_width, content_width_from, column_missing}
use flowtile_wm.Store.Widths.{resolve_column_width, total_width_from}

sat_add_i32-pos : (a b : ℕ) → a + b ≤ i32_max → sat_add_i32 (pos a) (capped_i32 b) ≡ pos (a + b)
unfolding sat_add_i32 saturate_i32 ◌+ℤ◌
sat_add_i32-pos a b h = ground arith

-- The sum only grows.
content_width_from-ge :
    (s : WmState) (viewport_width gap index total : ℕ) (ids : List ColumnId)
    → total ≤ u32_max
    → Ensures
        (λ n. total ≤ n)
        (content_width_from s.layout.columns viewport_width gap index total ids)
unfolding content_width_from
content_width_from-ge s v gap i t [] h = Ensures-ok _ _ (omega arith)
content_width_from-ge s v gap i t (id ∷ ids) h = elim (Option-cases (get id s.layout.columns)) [
  | inl e ↦ rw e (Ensures-err _ _)
  | inr (column, e) ↦
      let w = resolve_width column v in
      let more = if i == 0 then 0 else gap in
      let next = sat_add_u32 (sat_add_u32 t w) more in
      let bounded : next ≤ u32_max = omega arith in
      let later = content_width_from-ge s v gap (suc i) next ids bounded in
      rw e (record { holds = λ n k. let g = later.holds n k in omega (arith, g) })
]

-- The column after the first adds its gap in both.
same_gap : (i gap : ℕ) (a b : ℤ) → (if ltb 0 i then a else b) ≡ (if i == 0 then b else a)
same_gap i gap a b = ground arith

module _ (s : WmState) (v i : ℕ) (id : ColumnId) (ids : List ColumnId) where
  abbrev gap : ℕ
  gap = s.config_projection.layout_spacing.column_gap

  -- The sum after one column.
  abbrev wider : ℕ → Column → ℕ
  wider t column = sat_add_u32 (sat_add_u32 t (resolve_width column v)) (if i == 0 then 0 else gap)

  content_step :
      (t : ℕ) (column : Column)
      → get id s.layout.columns ≡ some column
      → content_width_from s.layout.columns v gap i t (id ∷ ids)
        ≡ content_width_from s.layout.columns v gap (suc i) (wider t column) ids
  unfolding content_width_from
  content_step t column e = rw e refl

  content_missing :
      (t : ℕ)
      → get id s.layout.columns ≡ none
      → content_width_from s.layout.columns v gap i t (id ∷ ids) ≡ err column_missing
  unfolding content_width_from
  content_missing t e = rw e refl

  total_step :
      (t : ℕ) (column : Column)
      → get id s.layout.columns ≡ some column
      → wider t column ≤ i32_max
      → total_width_from s v i (pos t) (id ∷ ids)
        ≡ total_width_from s v (suc i) (pos (wider t column)) ids
  unfolding total_width_from resolve_column_width resolve_width
  total_step t column e h = rw e (ap (λ z. total_width_from s v (suc i) z ids) summed)
    where
      summed :
          (if ltb 0 i
            then sat_add_i32
                (sat_add_i32 (pos t) (capped_i32 (resolve_column_width column v)))
                (capped_i32 gap)
            else sat_add_i32 (pos t) (capped_i32 (resolve_column_width column v)))
          ≡ pos (wider t column)
      summed = elim (Bool-cases (i == 0)) [
        | inl z ↦
            rw
              (
                same_gap i gap _ _,
                z,
                sat_add_i32-pos t (resolve_column_width column v) (ground (arith, z, h)),
              )
              (ap pos (ground (arith, z, h)))
        | inr z ↦
            rw
              (
                same_gap i gap _ _,
                z,
                sat_add_i32-pos t (resolve_column_width column v) (ground (arith, z, h)),
                sat_add_i32-pos (t + resolve_column_width column v) gap (ground (arith, z, h)),
              )
              (ap pos (ground (arith, z, h)))
      ]

-- From any column on, with the same sum so far, a `u32`: where the layout engine computes a
-- content width that is within an `i32`, the reducer computes the same one.
pub total_width-eq-content_width :
    (s : WmState) (viewport_width index total n : ℕ) (ids : List ColumnId)
    → total ≤ u32_max
    → content_width_from s.layout.columns viewport_width
        s.config_projection.layout_spacing.column_gap index total ids
      ≡ ok n
    → n ≤ i32_max
    → total_width_from s viewport_width index (pos total) ids ≡ ok (pos n)
unfolding content_width_from total_width_from
total_width-eq-content_width s v i t n [] b h k = let same : t ≡ n = cc in rw same refl
total_width-eq-content_width s v i t n (id ∷ ids) b h k =
    elim (Option-cases (get id s.layout.columns)) [
      | inl e ↦ let missing = content_missing s v i id ids t e in cc
      | inr (column, e) ↦
          let step = sym (content_step s v i id ids t column e) ∙ h in
          let grown =
            (content_width_from-ge s v (gap s v i id ids) (suc i) (wider s v i id ids t column) ids
                (omega arith)).holds
              n step in
          total_step s v i id ids t column e (omega (arith, grown))
          ∙ total_width-eq-content_width s v (suc i) (wider s v i id ids t column) n ids
              (omega arith) step k
    ]
