-- ===== src/Store/Selections.antt =====
-- The windows that a column of crates/wm-core/src/state_store.rs selects.
use flowtile_wm.Base.{
  ◌≡◌, refl, Bool, true, false, not, ◌||◌, Option, none, some, List, [], ◌∷◌, ◌++◌, if◌then◌else◌,
  ◌==◌, eq_option, or_else, contains, first, retain, arith,
}
use flowtile_wm.Domain.{WindowId, ColumnId, Column, ColumnMode, WidthSemantics, new_column}
use flowtile_wm.Store.Membership.{without_window, with_window_back}

-- An optional window is one of a list.
abbrev pub is_among : Option WindowId → List WindowId → Bool
is_among none ids = true
is_among (some id) ids = contains id ids

pub record IsSelecting (column : Column) : Type 0 where
  pub active : is_among column.active_window_id column.ordered_window_ids ≡ true
  pub tab : is_among column.tab_selection column.ordered_window_ids ≡ true

first-is_among : (ids : List WindowId) → is_among (first ids) ids ≡ true
first-is_among [] = refl
first-is_among (id ∷ ids) = ground arith

contains-retain :
    (a id : WindowId) (ids : List WindowId)
    → contains a (retain (λ x. not (x == id)) ids) ≡ (if a == id then false else contains a ids)
contains-retain a id [] = ground arith
contains-retain a id (x ∷ ids) = ground (arith, contains-retain a id ids)

contains-snoc :
    (a id : WindowId) (ids : List WindowId)
    → contains a (ids ++ id ∷ []) ≡ (contains a ids || a == id)
contains-snoc a id [] = ground arith
contains-snoc a id (x ∷ ids) = ground (arith, contains-snoc a id ids)

-- A column that `Column::new` makes selects windows of its own.
pub new_column-IsSelecting :
    (id : ColumnId) (mode : ColumnMode) (width : WidthSemantics) (ids : List WindowId)
    → IsSelecting (new_column id mode width ids)
new_column-IsSelecting id mode width ids = record {
  active = first-is_among ids;
  tab = first-is_among ids;
}

is_among-retain :
    (o : Option WindowId) (id : WindowId) (ids : List WindowId)
    → eq_option o (some id) ≡ false
    → is_among o ids ≡ true
    → is_among o (retain (λ x. not (x == id)) ids) ≡ true
is_among-retain none id ids e h = refl
is_among-retain (some a) id ids e h = ground (arith, contains-retain a id ids)

is_among-or_else :
    (o p : Option WindowId) (ids : List WindowId)
    → is_among o ids ≡ true
    → is_among p ids ≡ true
    → is_among (or_else o p) ids ≡ true
is_among-or_else none p ids h k = k
is_among-or_else (some a) p ids h k = h

-- The choice between a selection that stays and another one.
is_among-if :
    (b : Bool) (o p : Option WindowId) (ids : List WindowId)
    → is_among o ids ≡ true
    → (b ≡ false → is_among p ids ≡ true)
    → is_among (if b then o else p) ids ≡ true
is_among-if true o p ids h k = h
is_among-if false o p ids h k = k refl

-- Taking a window out of a column that selects windows of its own leaves one that does so too,
-- without that window.
without_window-IsSelecting :
    (id : WindowId) (column : Column)
    → IsSelecting column
    → IsSelecting (without_window id column)
      × (contains id (without_window id column).ordered_window_ids ≡ false)
unfolding without_window
without_window-IsSelecting id column h =
    let ids = retain (λ x. not (x == id)) column.ordered_window_ids in
    let tab_stays =
      is_among-if (eq_option column.tab_selection (some id)) (first ids) column.tab_selection ids
        (first-is_among ids)
        (λ e. is_among-retain column.tab_selection id column.ordered_window_ids e h.tab) in
    (
      record {
        active =
            is_among-if (eq_option column.active_window_id (some id)) _ column.active_window_id ids
              (is_among-or_else _ (first ids) ids tab_stays (first-is_among ids))
              (λ e.
                is_among-retain column.active_window_id id column.ordered_window_ids e h.active);
        tab = tab_stays;
      },
      ground (arith, contains-retain id id column.ordered_window_ids),
    )

abbrev with_id : WindowId → List WindowId → List WindowId
with_id id ids = if contains id ids then ids else ids ++ id ∷ []

contains-with_id : (id : WindowId) (ids : List WindowId) → contains id (with_id id ids) ≡ true
contains-with_id id ids = ground (arith, contains-snoc id id ids)

is_among-with_id :
    (o : Option WindowId) (id : WindowId) (ids : List WindowId)
    → is_among o ids ≡ true
    → is_among o (with_id id ids) ≡ true
is_among-with_id none id ids h = refl
is_among-with_id (some a) id ids h = ground (arith, contains-snoc a id ids)

-- Putting a window into a column that selects windows of its own leaves one that does so too,
-- with that window.
with_window_back-IsSelecting :
    (id : WindowId) (column : Column)
    → IsSelecting column
    → IsSelecting (with_window_back id column)
      × (contains id (with_window_back id column).ordered_window_ids ≡ true)
with_window_back-IsSelecting id column h =
    let back = contains-with_id id column.ordered_window_ids in
    (
      record {
        active =
            is_among-or_else column.active_window_id (some id) _
              (is_among-with_id column.active_window_id id _ h.active) back;
        tab =
            is_among-if _ (some id) column.tab_selection _ back
              (λ e. is_among-with_id column.tab_selection id _ h.tab);
      },
      back,
    )

-- From a column that selects windows of its own, taking a window out and putting a window in leave one
-- that does so too, the first without that window and the second with it.
pub membership_edits-IsSelecting :
    (id : WindowId) (column : Column)
    → IsSelecting column
    → IsSelecting (without_window id column)
      × (contains id (without_window id column).ordered_window_ids ≡ false)
      × IsSelecting (with_window_back id column)
      × (contains id (with_window_back id column).ordered_window_ids ≡ true)
membership_edits-IsSelecting id column h =
    let (out, gone) = without_window-IsSelecting id column h in
    let (back, there) = with_window_back-IsSelecting id column h in (out, gone, back, there)
