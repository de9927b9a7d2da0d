-- ===== src/Store/Placement.antt =====
-- Where a column goes in a strip, in crates/wm-core/src/state_store.rs and its child workspace.rs.
use flowtile_wm.Base.{
  ℕ, suc, ◌+◌, ◌≤◌, ◌<◌, ◌≡◌, refl, ap, ◌∙◌, inl, inr, min, Bool, true, false, not, Option, none,
  some, List, [], ◌∷◌, ◌++◌, if◌then◌else◌, ◌==◌, contains, length, position, retain, insert_at,
  map_some, and_then, unwrap_or, or_else, length-append, arith, Bool-cases,
}
use flowtile_wm.Domain.{ColumnId}
use flowtile_wm.Store.Membership.{NewColumnRequest, insert_index}
use flowtile_wm.Store.Moves.{place_after}

-- An optional index is below a bound.
abbrev IsBelow : ℕ → Option ℕ → Type 0
IsBelow n none = Unit
IsBelow n (some i) = i < n

IsBelow-or_else : (n : ℕ) (o p : Option ℕ) → IsBelow n o → IsBelow n p → IsBelow n (or_else o p)
IsBelow-or_else n none p h k = k
IsBelow-or_else n (some i) p h k = h

IsBelow-unwrap_or : (n d : ℕ) (o : Option ℕ) → IsBelow n o → d < n → unwrap_or o d < n
IsBelow-unwrap_or n d none h k = k
IsBelow-unwrap_or n d (some i) h k = h

IsBelow-map_some :
    (n m : ℕ) (f : ℕ → ℕ) (o : Option ℕ)
    → IsBelow n o
    → ((i : ℕ) → i < n → f i < m)
    → IsBelow m (map_some o f)
IsBelow-map_some n m f none h k = tt
IsBelow-map_some n m f (some i) h k = k i h

IsBelow-position : (test : ℕ → Bool) (ids : List ℕ) → IsBelow (length ids) (position test ids)
IsBelow-position test [] = tt
IsBelow-position test (x ∷ ids) = elim (Bool-cases (test x)) [
  | inl e ↦ rw e (omega arith)
  | inr e ↦
      rw e (
        IsBelow-map_some _ (suc (length ids)) suc _ (IsBelow-position test ids)
          (λ i h. omega arith))
]

-- The index at which a new column goes is never past the end of the strip.
pub insert_index-le :
    (request : NewColumnRequest) (ids : List ColumnId) → insert_index request ids ≤ length ids
unfolding insert_index
insert_index-le request ids = omega (
  arith,
  IsBelow-unwrap_or (suc (length ids)) (if request.before_anchor then 0 else length ids) _
      (IsBelow-or_else _ _ _ (overridden request.insert_index_override)
        (beside_anchor request.anchor_column_id))
      (default_fits request.before_anchor),
)
  where
    overridden :
        (o : Option ℕ) → IsBelow (suc (length ids)) (map_some o (λ index. min index (length ids)))
    overridden none = tt
    overridden (some i) = omega arith

    beside : (b : Bool) (i : ℕ) → i < length ids → (if b then i else i + 1) < suc (length ids)
    beside true i h = omega arith
    beside false i h = omega arith

    beside_anchor :
        (o : Option ColumnId)
        → IsBelow (suc (length ids)) (
            and_then o λ anchor.
              map_some
                (position (λ id. id == anchor) ids)
                (λ index. if request.before_anchor then index else index + 1))
    beside_anchor none = tt
    beside_anchor (some anchor) =
        IsBelow-map_some (length ids) _ _ _ (IsBelow-position _ ids) (beside request.before_anchor)

    default_fits : (b : Bool) → (if b then 0 else length ids) < suc (length ids)
    default_fits true = omega arith
    default_fits false = omega arith

-- A list cut at the first place where `a` stands.
record Split (a : ℕ) (ids : List ℕ) : Type 0 where
  front : List ℕ
  back : List ℕ
  whole : ids ≡ front ++ a ∷ back
  at : position (λ id. id == a) ids ≡ some (length front)

split : (a : ℕ) (ids : List ℕ) → contains a ids ≡ true → Split a ids
split a [] h = cc
split a (x ∷ ids) h = elim (Bool-cases (x == a)) [
  | inl e ↦
      let same : x ≡ a = ground arith in
      record { front = []; back = ids; whole = rw same refl; at = rw e refl }
  | inr e ↦
      let rest = split a ids (ground arith) in
      record {
        front = x ∷ rest.front;
        back = rest.back;
        whole = ap (λ l. x ∷ l) rest.whole;
        at = rw (e, rest.at) refl;
      }
]

insert_at-length : (v : ℕ) (ids : List ℕ) → insert_at (length ids) v ids ≡ ids ++ v ∷ []
insert_at-length v [] = refl
insert_at-length v (x ∷ ids) = ap (λ l. x ∷ l) (insert_at-length v ids)

insert_at-after :
    (v a : ℕ) (front back : List ℕ)
    → insert_at (suc (length front)) v (front ++ a ∷ back) ≡ front ++ a ∷ v ∷ back
insert_at-after v a [] back = refl
insert_at-after v a (x ∷ front) back = ap (λ l. x ∷ l) (insert_at-after v a front back)

insert_after_cut :
    (v a : ℕ) (ids : List ℕ) (cut : Split a ids)
    → insert_at
        (min
          (unwrap_or (map_some (position (λ id. id == a) ids) (λ index. index + 1)) (length ids))
          (length ids))
        v
        ids
      ≡ cut.front ++ a ∷ v ∷ cut.back
insert_after_cut v a ids cut =
    rw (cut.at, in_range)
      (ap (insert_at (suc (length cut.front)) v) cut.whole ∙ insert_at-after v a cut.front cut.back)
  where
    in_range : min (length cut.front + 1) (length ids) ≡ suc (length cut.front)
    in_range = omega (arith, ap length cut.whole, length-append cut.front (a ∷ cut.back))

-- The other columns of a strip.
abbrev pub others : ColumnId → List ColumnId → List ColumnId
others column_id ids = retain (λ id. not (id == column_id)) ids

-- A column that is moved behind an anchor, which is another column of the strip, stands directly
-- behind it, and the other columns keep their order.
place_after-anchor :
    (column_id anchor : ColumnId) (ids : List ColumnId)
    → contains anchor (others column_id ids) ≡ true
    → (front : List ColumnId) × (back : List ColumnId) × (others column_id ids
        ≡ front ++ anchor ∷ back)
      × (place_after column_id (some anchor) ids ≡ front ++ anchor ∷ column_id ∷ back)
unfolding place_after
place_after-anchor column_id anchor ids h =
    let cut = split anchor (others column_id ids) h in
    (cut.front, cut.back, cut.whole, insert_after_cut column_id anchor (others column_id ids) cut)

-- A column that is moved without an anchor goes to the
-- end of the strip.
place_after-end :
    (column_id : ColumnId) (ids : List ColumnId)
    → place_after column_id none ids ≡ others column_id ids ++ column_id ∷ []
unfolding place_after
place_after-end column_id ids =
    rw (min_self (length (others column_id ids)))
      (insert_at-length column_id (others column_id ids))
  where
    min_self : (n : ℕ) → min n n ≡ n
    min_self n = omega arith

-- A column that is moved behind an anchor other than itself, which is in the strip, stands directly
-- behind it, and without an anchor it goes to the end; the other columns keep their order.
pub place_after-cuts :
    (column_id anchor : ColumnId) (ids : List ColumnId)
    → contains anchor (others column_id ids) ≡ true
    → ((front : List ColumnId) × (back : List ColumnId) × (others column_id ids
          ≡ front ++ anchor ∷ back)
        × (place_after column_id (some anchor) ids ≡ front ++ anchor ∷ column_id ∷ back))
      × (place_after column_id none ids ≡ others column_id ids ++ column_id ∷ [])
place_after-cuts column_id anchor ids h =
    (place_after-anchor column_id anchor ids h, place_after-end column_id ids)
