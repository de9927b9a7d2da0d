-- ===== src/Base/Sets.antt =====
-- A `HashSet<u32>` as a list without an order that matters, and a sorted `Vec<u32>`.
use Prim.Native.Nat.{ℕ}
use mathlib.Core.Path.{◌≡◌, refl}
use mathlib.Core.Bool.{false, ◌||◌}
use mathlib.Core.List.{List, [], ◌∷◌}
use native.Mathlib.Omega.{arith}
use flowtile_wm.Base.Tests.{if◌then◌else◌, leb, ◌==◌}
use flowtile_wm.Base.Lists.{contains}

-- `HashSet::insert` and `HashSet::remove`, without the Boolean that they return.
unfoldable pub insert_key : ℕ → List ℕ → List ℕ
insert_key k xs = if contains k xs then xs else k ∷ xs

unfoldable pub remove_key : ℕ → List ℕ → List ℕ
remove_key k [] = []
remove_key k (x ∷ xs) = let rest = remove_key k xs in if x == k then rest else x ∷ rest

insert_sorted : ℕ → List ℕ → List ℕ
insert_sorted k [] = k ∷ []
insert_sorted k (x ∷ xs) = let rest = insert_sorted k xs in if leb k x then k ∷ x ∷ xs else x ∷ rest

-- `sort_unstable`.
unfoldable pub sort : List ℕ → List ℕ
unfolding insert_sorted
sort [] = []
sort (x ∷ xs) = insert_sorted x (sort xs)

pub contains-insert_key :
    (k a : ℕ) (xs : List ℕ) → contains a (insert_key k xs) ≡ (a == k || contains a xs)
unfolding insert_key
contains-insert_key k a xs = ground arith

pub contains-remove_key :
    (k a : ℕ) (xs : List ℕ)
    → contains a (remove_key k xs) ≡ (if a == k then false else contains a xs)
unfolding remove_key
contains-remove_key k a [] = ground arith
contains-remove_key k a (x ∷ xs) = ground (arith, contains-remove_key k a xs)

-- A set that contains nothing is empty.
pub empty_if : (xs : List ℕ) → ((a : ℕ) → contains a xs ≡ false) → xs ≡ []
empty_if [] h = refl
empty_if (x ∷ xs) h = ground (arith, h x)
