-- ===== src/Base/Map.antt =====
-- `BTreeMap` with identifiers for keys: an association list in the order of the keys, so that an
-- iteration meets them in order. The laws are in conditional form and need no invariant.
use Prim.Native.Nat.{ℕ, suc}
use mathlib.Core.Path.{◌≡◌, refl}
use mathlib.Core.Logic.{◌≢◌}
use mathlib.Core.Bool.{Bool}
use mathlib.Core.Option.{Option, none, some}
use mathlib.Core.List.{List, [], ◌∷◌, map as map_list}
use native.Mathlib.Omega.{arith}
use flowtile_wm.Base.Tests.{if◌then◌else◌, ltb, ◌==◌, map_some, is_some}
use flowtile_wm.Base.Lists.{length}

abbrev pub Map {ℓ} : Type ℓ → Type ℓ
Map V = List (ℕ × V)

module _ {ℓ} {V : Type ℓ} where
  abbrev pub empty : Map V
  empty = []

  -- `get`.
  unfoldable pub get : ℕ → Map V → Option V
  get k [] = none
  get k ((j, v) ∷ m) = let rest = get k m in if j == k then some v else rest

  -- `insert`, which replaces the value of a key that is there.
  unfoldable pub insert : ℕ → V → Map V → Map V
  insert k v [] = (k, v) ∷ []
  insert k v ((j, w) ∷ m) =
      let rest = (j, w) ∷ insert k v m in
      if ltb k j then (k, v) ∷ (j, w) ∷ m else if j == k then (k, v) ∷ m else rest

  unfoldable pub remove : ℕ → Map V → Map V
  remove k [] = []
  remove k ((j, w) ∷ m) = let rest = remove k m in if j == k then rest else (j, w) ∷ rest

  -- `if let Some(v) = map.get_mut(&k) { *v = f(*v) }`.
  unfoldable pub adjust : ℕ → (V → V) → Map V → Map V
  adjust k f [] = []
  adjust k f ((j, w) ∷ m) = (j, if j == k then f w else w) ∷ adjust k f m

  -- `insert` of a `HashMap`, which keeps no order.
  unfoldable pub put : ℕ → V → Map V → Map V
  put k v [] = (k, v) ∷ []
  put k v ((j, w) ∷ m) = let rest = put k v m in if j == k then (k, v) ∷ m else (j, w) ∷ rest

  abbrev pub contains_key : ℕ → Map V → Bool
  contains_key k m = is_some (get k m)

  abbrev pub keys : Map V → List ℕ
  keys = map_list (λ e. e.0)

  abbrev pub values : Map V → List V
  values = map_list (λ e. e.1)

  pub get-insert :
      (k : ℕ) (v : V) (m : Map V) (j : ℕ)
      → get j (insert k v m) ≡ (if k == j then some v else get j m)
  unfolding get insert
  get-insert k v [] j = refl
  get-insert k v ((i, w) ∷ m) j = ground (arith, get-insert k v m j)

  pub get-remove :
      (k : ℕ) (m : Map V) (j : ℕ) → get j (remove k m) ≡ (if k == j then none else get j m)
  unfolding get remove
  get-remove k [] j = ground arith
  get-remove k ((i, w) ∷ m) j = ground (arith, get-remove k m j)

  pub get-adjust :
      (k : ℕ) (f : V → V) (m : Map V) (j : ℕ)
      → get j (adjust k f m) ≡ (if k == j then map_some (get j m) f else get j m)
  unfolding get adjust
  get-adjust k f [] j = ground arith
  get-adjust k f ((i, w) ∷ m) j = ground (arith, get-adjust k f m j)

  pub get-insert_self : (k : ℕ) (v : V) (m : Map V) → get k (insert k v m) ≡ some v
  get-insert_self k v m = ground (arith, get-insert k v m k)

  pub get-adjust_self :
      (k : ℕ) (f : V → V) (m : Map V) {v : V} → get k m ≡ some v → get k (adjust k f m) ≡ some (f v)
  get-adjust_self k f m h = ground (arith, get-adjust k f m k)

  pub get-adjust_ne :
      (k : ℕ) (f : V → V) (m : Map V) {j : ℕ} → k ≢ j → get j (adjust k f m) ≡ get j m
  get-adjust_ne k f m {j} h = ground (arith, get-adjust k f m j)

  pub get-put :
      (k : ℕ) (v : V) (m : Map V) (j : ℕ) → get j (put k v m) ≡ (if k == j then some v else get j m)
  unfolding get put
  get-put k v [] j = refl
  get-put k v ((i, w) ∷ m) j = ground (arith, get-put k v m j)

  -- A `HashMap` grows by one if the key is new.
  pub length-put :
      (k : ℕ) (v : V) (m : Map V)
      → length (put k v m) ≡ (if is_some (get k m) then length m else suc (length m))
  unfolding get put
  length-put k v [] = refl
  length-put k v ((i, w) ∷ m) = ground (arith, length-put k v m)
