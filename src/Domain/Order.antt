-- ===== src/Domain/Order.antt =====
-- The order of the monitors in crates/domain/src/model.rs.
use flowtile_wm.Base.{
  suc, ◌≡◌, refl, ◌∙◌, Bool, true, false, ◌||◌, List, [], ◌∷◌, ◌==◌, if◌then◌else◌, contains,
  length, arith, Bool-cases, inl, inr, ap,
}
use flowtile_wm.Base.Map.{keys}
use flowtile_wm.Domain.Geometry.{MonitorId}
use flowtile_wm.Domain.State.{
  WmState, NavigationKey, navigation_key, key_before, insert_by_key, sort_by_key,
  monitor_ids_in_navigation_order,
}

-- No monitor of the list is before the one in front of it.
abbrev pub IsOrdered : WmState → List MonitorId → Type 0
IsOrdered s [] = Unit
IsOrdered s (a ∷ []) = Unit
IsOrdered s (a ∷ b ∷ ids) =
    (key_before (navigation_key s b) (navigation_key s a) ≡ false) × IsOrdered s (b ∷ ids)

key_before-asym : (a b : NavigationKey) → key_before a b ≡ true → key_before b a ≡ false
key_before-asym a b h = ground arith

behind :
    (s : WmState) (id a b : MonitorId) (ids : List MonitorId)
    → key_before (navigation_key s b) (navigation_key s a) ≡ false
    → key_before (navigation_key s id) (navigation_key s a) ≡ false
    → IsOrdered s (insert_by_key s id (b ∷ ids))
    → IsOrdered s (a ∷ insert_by_key s id (b ∷ ids))
unfolding insert_by_key
behind s id a b ids p q h = headed (key_before (navigation_key s b) (navigation_key s id)) h
  where
    headed :
        (test : Bool)
        → IsOrdered s (if test then b ∷ insert_by_key s id ids else id ∷ b ∷ ids)
        → IsOrdered s (a ∷ (if test then b ∷ insert_by_key s id ids else id ∷ b ∷ ids))
    headed true k = (p, k)
    headed false k = (q, k)

insert_by_key-IsOrdered :
    (s : WmState) (id : MonitorId) (ids : List MonitorId)
    → IsOrdered s ids
    → IsOrdered s (insert_by_key s id ids)
unfolding insert_by_key
insert_by_key-IsOrdered s id [] h = tt
insert_by_key-IsOrdered s id (a ∷ []) h =
    elim (Bool-cases (key_before (navigation_key s a) (navigation_key s id))) [
      | inl e ↦ rw e (key_before-asym (navigation_key s a) (navigation_key s id) e, tt)
      | inr e ↦ rw e (e, tt)
    ]
insert_by_key-IsOrdered s id (a ∷ b ∷ ids) (p, h) =
    elim (Bool-cases (key_before (navigation_key s a) (navigation_key s id))) [
      | inl e ↦ rw e (
          behind s id a b ids p (key_before-asym (navigation_key s a) (navigation_key s id) e)
            (insert_by_key-IsOrdered s id (b ∷ ids) h))
      | inr e ↦ rw e (e, (p, h))
    ]

sort_by_key-IsOrdered : (s : WmState) (ids : List MonitorId) → IsOrdered s (sort_by_key s ids)
unfolding sort_by_key
sort_by_key-IsOrdered s [] = tt
sort_by_key-IsOrdered s (id ∷ ids) =
    insert_by_key-IsOrdered s id (sort_by_key s ids) (sort_by_key-IsOrdered s ids)

contains-insert_by_key :
    (s : WmState) (a id : MonitorId) (ids : List MonitorId)
    → contains a (insert_by_key s id ids) ≡ contains a (id ∷ ids)
unfolding insert_by_key
contains-insert_by_key s a id [] = refl
contains-insert_by_key s a id (b ∷ ids) =
    elim (Bool-cases (key_before (navigation_key s b) (navigation_key s id))) [
      | inl e ↦
          rw (e, contains-insert_by_key s a id ids) (swapped (a == b) (a == id) (contains a ids))
      | inr e ↦ rw e refl
    ]
  where
    swapped : (p q r : Bool) → (p || (q || r)) ≡ (q || (p || r))
    swapped true true r = refl
    swapped true false r = refl
    swapped false q r = refl

contains-sort_by_key :
    (s : WmState) (a : MonitorId) (ids : List MonitorId)
    → contains a (sort_by_key s ids) ≡ contains a ids
unfolding sort_by_key
contains-sort_by_key s a [] = refl
contains-sort_by_key s a (id ∷ ids) =
    contains-insert_by_key s a id (sort_by_key s ids)
    ∙ ap (λ b. (a == id) || b) (contains-sort_by_key s a ids)

length-insert_by_key :
    (s : WmState) (id : MonitorId) (ids : List MonitorId)
    → length (insert_by_key s id ids) ≡ suc (length ids)
unfolding insert_by_key
length-insert_by_key s id [] = refl
length-insert_by_key s id (b ∷ ids) =
    elim (Bool-cases (key_before (navigation_key s b) (navigation_key s id))) [
      | inl e ↦ rw e (ap suc (length-insert_by_key s id ids))
      | inr e ↦ rw e refl
    ]

length-sort_by_key : (s : WmState) (ids : List MonitorId) → length (sort_by_key s ids) ≡ length ids
unfolding sort_by_key
length-sort_by_key s [] = refl
length-sort_by_key s (id ∷ ids) =
    length-insert_by_key s id (sort_by_key s ids) ∙ ap suc (length-sort_by_key s ids)

-- The navigation order lists the monitors of the state, as many as there are and each that is there,
-- from left to right, then from top to bottom, then by identifier.
pub monitor_ids_in_navigation_order-IsOrdered :
    (s : WmState)
    → IsOrdered s (monitor_ids_in_navigation_order s)
      × (length (monitor_ids_in_navigation_order s) ≡ length (keys s.monitors))
      × ((a : MonitorId)
          → contains a (monitor_ids_in_navigation_order s) ≡ contains a (keys s.monitors))
unfolding monitor_ids_in_navigation_order
monitor_ids_in_navigation_order-IsOrdered s = (
  sort_by_key-IsOrdered s (keys s.monitors),
  length-sort_by_key s (keys s.monitors),
  λ a. contains-sort_by_key s a (keys s.monitors),
)
