-- ===== src/Store/Sorting.antt =====
-- Sorting, removing equal neighbours and searching, as `next_cycled_column_width` of
-- crates/wm-core/src/state_store/width_resize.rs does with its steps.
use flowtile_wm.Base.{
  ℕ, ◌≤◌, ◌≡◌, refl, sym, ◌∙◌, ◌≢◌, inl, inr, Bool, true, false, some, none, List, [], ◌∷◌, leb,
  ◌==◌, ==_iff, find, get_or, contains, All, arith, Bool-cases,
}
use flowtile_wm.Store.Resize.{insert_sorted, sort, dedup}

-- Sorting and removing neighbours that are equal keep a property of all the elements, and keep
-- which numbers occur.
module _ (P : ℕ → Type 0) where
  All-insert_sorted : (n : ℕ) (ms : List ℕ) → P n → All P ms → All P (insert_sorted n ms)
  unfolding insert_sorted
  All-insert_sorted n [] p h = (p, h)
  All-insert_sorted n (m ∷ ms) p (q, h) = elim (Bool-cases (leb n m)) [
    | inl e ↦ rw (e, insert_sorted) (p, (q, h))
    | inr e ↦ rw (e, insert_sorted) (q, All-insert_sorted n ms p h)
  ]

  pub All-sort : (ns : List ℕ) → All P ns → All P (sort ns)
  unfolding sort
  All-sort [] h = h
  All-sort (n ∷ ns) (p, h) = All-insert_sorted n (sort ns) p (All-sort ns h)

  pub All-dedup : (ns : List ℕ) → All P ns → All P (dedup ns)
  unfolding dedup
  All-dedup [] h = h
  All-dedup (n ∷ []) h = h
  All-dedup (n ∷ m ∷ ms) (p, h) = elim (Bool-cases (n == m)) [
    | inl e ↦ rw (e, dedup) (All-dedup (m ∷ ms) h)
    | inr e ↦ rw (e, dedup) (p, All-dedup (m ∷ ms) h)
  ]

contains-insert_sorted :
    (a n : ℕ) (ms : List ℕ) → contains a (insert_sorted n ms) ≡ contains a (n ∷ ms)
unfolding insert_sorted
contains-insert_sorted a n [] = refl
contains-insert_sorted a n (m ∷ ms) = ground (arith, contains-insert_sorted a n ms)

pub contains-sort : (a : ℕ) (ns : List ℕ) → contains a (sort ns) ≡ contains a ns
unfolding sort
contains-sort a [] = refl
contains-sort a (n ∷ ns) = ground (arith, contains-insert_sorted a n (sort ns), contains-sort a ns)

pub contains-dedup : (a : ℕ) (ns : List ℕ) → contains a (dedup ns) ≡ contains a ns
unfolding dedup
contains-dedup a [] = refl
contains-dedup a (n ∷ []) = refl
contains-dedup a (n ∷ m ∷ ms) = ground (arith, contains-dedup a (m ∷ ms))

-- What `find` gives has the tested property, and any other that all elements have.
pub find_sound :
    (P : ℕ → Type 0) (test : ℕ → Bool) (ns : List ℕ) (a : ℕ)
    → All P ns
    → find test ns ≡ some a
    → P a × (test a ≡ true)
find_sound P test [] a h e = cc
find_sound P test (n ∷ ns) a (p, h) e = elim (Bool-cases (test n)) [
  | inl t ↦ found t (simp t at e)
  | inr t ↦ find_sound P test ns a h (simp t at e)
]
  where
    found : test n ≡ true → some n ≡ some a → P a × (test a ≡ true)
    found t e = let same : n ≡ a = cc in (rw (sym same) p, rw (sym same) t)

pub find_complete :
    (test : ℕ → Bool) (ns : List ℕ) (a : ℕ)
    → contains a ns ≡ true
    → test a ≡ true
    → find test ns ≢ none
find_complete test [] a h t e = cc
find_complete test (n ∷ ns) a h t e = ground (arith, find_complete test ns a)

pub find-none : (test : ℕ → Bool) (ns : List ℕ) → All (λ n. test n ≡ false) ns → find test ns ≡ none
find-none test [] h = refl
find-none test (n ∷ ns) (p, h) = rw p (find-none test ns h)

-- The first element of a sorted list is the least.
first-insert_sorted : (n : ℕ) (ms : List ℕ) → get_or (insert_sorted n ms) 0 0 ≤ n
unfolding insert_sorted
first-insert_sorted n [] = omega arith
first-insert_sorted n (m ∷ ms) = ground arith

first-insert_sorted_rest : (n m : ℕ) (ms : List ℕ) → get_or (insert_sorted n (m ∷ ms)) 0 0 ≤ m
unfolding insert_sorted
first-insert_sorted_rest n m ms = ground arith

first-insert_sorted_mono :
    (a n : ℕ) (ms : List ℕ)
    → contains a ms ≡ true
    → get_or ms 0 0 ≤ a
    → get_or (insert_sorted n ms) 0 0 ≤ a
first-insert_sorted_mono a n [] h k = cc
first-insert_sorted_mono a n (m ∷ ms) h k = omega (arith, first-insert_sorted_rest n m ms)

pub first-sort : (a : ℕ) (ns : List ℕ) → contains a ns ≡ true → get_or (sort ns) 0 0 ≤ a
unfolding sort
first-sort a [] h = cc
first-sort a (n ∷ ns) h = elim (Bool-cases (a == n)) [
  | inl e ↦ ground (arith, first-insert_sorted n (sort ns))
  | inr e ↦
      let k : contains a ns ≡ true = ground arith in
      first-insert_sorted_mono a n (sort ns) (contains-sort a ns ∙ k) (first-sort a ns k)
]

pub first-dedup : (ns : List ℕ) → get_or (dedup ns) 0 0 ≡ get_or ns 0 0
unfolding dedup
first-dedup [] = refl
first-dedup (n ∷ []) = refl
first-dedup (n ∷ m ∷ ms) = ground (arith, first-dedup (m ∷ ms))

-- No element is above a later one.
abbrev pub IsSorted : List ℕ → Type 0
IsSorted [] = Unit
IsSorted (n ∷ ns) = All (λ m. n ≤ m) ns × IsSorted ns

All-above : (n m : ℕ) (ms : List ℕ) → n ≤ m → All (λ k. m ≤ k) ms → All (λ k. n ≤ k) ms
All-above n m [] h k = tt
All-above n m (a ∷ ms) h (k, ks) = (omega arith, All-above n m ms h ks)

insert_sorted-IsSorted : (n : ℕ) (ms : List ℕ) → IsSorted ms → IsSorted (insert_sorted n ms)
unfolding insert_sorted
insert_sorted-IsSorted n [] h = (tt, tt)
insert_sorted-IsSorted n (m ∷ ms) (a, h) = elim (Bool-cases (leb n m)) [
  | inl e ↦
      let le : n ≤ m = ground (arith, e) in
      rw (e, insert_sorted) ((le, All-above n m ms le a), (a, h))
  | inr e ↦
      rw (e, insert_sorted)
        (All-insert_sorted _ n ms (ground (arith, e)) a, insert_sorted-IsSorted n ms h)
]

pub sort-IsSorted : (ns : List ℕ) → IsSorted (sort ns)
unfolding sort
sort-IsSorted [] = tt
sort-IsSorted (n ∷ ns) = insert_sorted-IsSorted n (sort ns) (sort-IsSorted ns)

pub dedup-IsSorted : (ns : List ℕ) → IsSorted ns → IsSorted (dedup ns)
unfolding dedup
dedup-IsSorted [] h = tt
dedup-IsSorted (n ∷ []) h = h
dedup-IsSorted (n ∷ m ∷ ms) (a, h) = elim (Bool-cases (n == m)) [
  | inl e ↦ rw (e, dedup) (dedup-IsSorted (m ∷ ms) h)
  | inr e ↦ rw (e, dedup) (All-dedup _ (m ∷ ms) a, dedup-IsSorted (m ∷ ms) h)
]

pub All-contains : (P : ℕ → Type 0) (a : ℕ) (ns : List ℕ) → contains a ns ≡ true → All P ns → P a
All-contains P a [] h k = cc
All-contains P a (n ∷ ns) h (p, k) = elim (Bool-cases (a == n)) [
  | inl e ↦ let same : n ≡ a = ground (arith, e) in rw (sym same) p
  | inr e ↦ All-contains P a ns (ground (arith, e)) k
]

-- What `find` gives is an element.
pub find-contains :
    (test : ℕ → Bool) (ns : List ℕ) (a : ℕ) → find test ns ≡ some a → contains a ns ≡ true
find-contains test [] a e = cc
find-contains test (n ∷ ns) a e = elim (Bool-cases (test n)) [
  | inl t ↦ here (simp t at e)
  | inr t ↦ let rest = find-contains test ns a (simp t at e) in ground arith
]
  where
    here : some n ≡ some a → contains a (n ∷ ns) ≡ true
    here e = let same : n ≡ a = cc in ground arith

-- In a sorted list, what `find` gives is at most any element that passes the test.
pub find_least :
    (test : ℕ → Bool) (ns : List ℕ) (a b : ℕ)
    → IsSorted ns
    → find test ns ≡ some a
    → contains b ns ≡ true
    → test b ≡ true
    → a ≤ b
find_least test [] a b h e c t = cc
find_least test (n ∷ ns) a b (above, h) e c t = elim (Bool-cases (test n)) [
  | inl u ↦ least (simp u at e)
  | inr u ↦ elim (Bool-cases (b == n)) [
    | inl same ↦ absurd (clash u ((==_iff b n).0 same))
    | inr other ↦ find_least test ns a b h (simp u at e) (ground (arith, other)) t
  ]
]
  where
    least : some n ≡ some a → a ≤ b
    least k =
        let same : n ≡ a = cc in
        elim (Bool-cases (b == n)) [
          | inl e' ↦ ground arith
          | inr e' ↦
              let le = All-contains (λ m. n ≤ m) b ns (ground (arith, e')) above in omega arith
        ]

    clash : test n ≡ false → b ≡ n → ⊥
    clash u e' = cc
