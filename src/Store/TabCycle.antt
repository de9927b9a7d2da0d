-- ===== src/Store/TabCycle.antt =====
-- The indices of the navigation in crates/wm-core/src/state_store.rs.
use flowtile_wm.Base.{
  ℕ, zero, suc, ◌+◌, ◌-◌, ◌%◌, ◌<◌, ◌≡◌, refl, Bool, true, false, not, arith, ltb, Bool-cases, inl,
  inr,
}
use native.Mathlib.Nat.{mod_self, mod-eq_of_lt}
use flowtile_wm.Store.Navigation.{next_tab_index}

step_back : (i count : ℕ) → next_tab_index false (suc i) count ≡ i
unfolding next_tab_index
step_back i count = ground arith

step_around : (count : ℕ) → next_tab_index false 0 count ≡ count - 1
unfolding next_tab_index
step_around count = refl

step_forward : (i count : ℕ) → next_tab_index true i count ≡ (i + 1) % count
unfolding next_tab_index
step_forward i count = refl

-- From a tab of a column, the next tab in either direction is a tab of the column, and a step the
-- other way leads back.
pub next_tab_index-inverse :
    (forward : Bool) (index count : ℕ)
    → index < count
    → (next_tab_index forward index count < count)
      × (next_tab_index (not forward) (next_tab_index forward index count) count ≡ index)
unfolding next_tab_index
next_tab_index-inverse true index count h = elim (Bool-cases (ltb (index + 1) count)) [
  | inl e ↦ before_end (ground arith)
  | inr e ↦ at_end (ground arith)
]
  where
    before_end :
        index + 1 < count
        → (next_tab_index true index count < count)
          × (next_tab_index false (next_tab_index true index count) count ≡ index)
    before_end k =
        rw (step_forward index count, mod-eq_of_lt k, add_one index, step_back index count)
          (omega arith, refl)
      where
        add_one : (i : ℕ) → i + 1 ≡ suc i
        add_one i = omega arith

    at_end :
        index + 1 ≡ count
        → (next_tab_index true index count < count)
          × (next_tab_index false (next_tab_index true index count) count ≡ index)
    at_end k =
        rw (step_forward index count, k, mod_self count, step_around count)
          (omega arith, omega arith)
next_tab_index-inverse false zero count h = (
  rw (step_around count) (omega arith),
  rw (step_around count, step_forward (count - 1) count, sub_add count h) (mod_self count),
)
  where
    sub_add : (n : ℕ) → 0 < n → n - 1 + 1 ≡ n
    sub_add n h = omega arith
next_tab_index-inverse false (suc i) count h = (
  rw (step_back i count) (omega arith),
  rw (step_back i count, step_forward i count) (rw (succ i) (mod-eq_of_lt h)),
)
  where
    succ : (i : ℕ) → i + 1 ≡ suc i
    succ i = omega arith
