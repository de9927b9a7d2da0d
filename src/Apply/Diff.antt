-- ===== src/Apply/Diff.antt =====
-- What `diff_snapshots` of crates/windows-adapter/src/lib.rs says of the windows.
use flowtile_wm.Base.{
  ℕ, ◌≡◌, refl, ap, ◌∙◌, Bool, true, false, not, ◌&&◌, ◌||◌, List, [], ◌∷◌, map, any, retain,
  contains, ◌==◌, ==_iff, Bool-cases, inl, inr, arith,
}
use flowtile_wm.Apply.Platform.{PlatformSnapshot, PlatformWindowSnapshot, has_hwnd, diff_snapshots}

-- What is retained by a test of the handle.
any-retain :
    (test : ℕ → Bool) (hwnd : ℕ) (windows : List PlatformWindowSnapshot)
    → any (λ w. w.hwnd == hwnd) (retain (λ w. not (test w.hwnd)) windows)
      ≡ (any (λ w. w.hwnd == hwnd) windows && not (test hwnd))
any-retain test hwnd [] = refl
any-retain test hwnd (w ∷ ws) = elim (Bool-cases (w.hwnd == hwnd)) [
  | inl t ↦
      let same = ap test ((==_iff w.hwnd hwnd).0 t) in
      let rest = any-retain test hwnd ws in
      elim (Bool-cases (test hwnd)) [
        | inl u ↦ rw (same, u) (ground (arith, rest))
        | inr u ↦ rw (same, u) (ground arith)
      ]
  | inr f ↦
      let rest = any-retain test hwnd ws in
      elim (Bool-cases (test w.hwnd)) [ inl u ↦ rw (u, f) rest | inr u ↦ rw (u, f) rest ]
]

contains-map :
    (hwnd : ℕ) (windows : List PlatformWindowSnapshot)
    → contains hwnd (map (λ w. w.hwnd) windows) ≡ any (λ w. w.hwnd == hwnd) windows
contains-map hwnd [] = refl
contains-map hwnd (w ∷ ws) = ground (arith, contains-map hwnd ws)

contains-map-retain :
    (test : ℕ → Bool) (hwnd : ℕ) (windows : List PlatformWindowSnapshot)
    → contains hwnd (map (λ w. w.hwnd) (retain (λ w. not (test w.hwnd)) windows))
      ≡ (any (λ w. w.hwnd == hwnd) windows && not (test hwnd))
contains-map-retain test hwnd windows =
    contains-map hwnd (retain (λ w. not (test w.hwnd)) windows) ∙ any-retain test hwnd windows

changed :
    (before after : Bool) → after ≡ ((before && not (before && not after)) || (after && not before))
changed true true = refl
changed true false = refl
changed false true = refl
changed false false = refl

-- The windows of the current snapshot are those of the previous one that were not destroyed, and the
-- created ones; and no window is both destroyed and in the current snapshot.
pub diff_snapshots-windows :
    (previous current : PlatformSnapshot) (hwnd : ℕ)
    → (has_hwnd hwnd current ≡ (
        (has_hwnd hwnd previous
          && not (contains hwnd (diff_snapshots previous current).destroyed_hwnds))
        || any (λ w. w.hwnd == hwnd) (diff_snapshots previous current).created_windows))
      × ((contains hwnd (diff_snapshots previous current).destroyed_hwnds && has_hwnd hwnd current)
          ≡ false)
unfolding diff_snapshots
diff_snapshots-windows previous current hwnd =
    let created = any-retain (λ h. has_hwnd h previous) hwnd current.windows in
    let destroyed = contains-map-retain (λ h. has_hwnd h current) hwnd previous.windows in
    (
      rw (created, destroyed) (changed (has_hwnd hwnd previous) (has_hwnd hwnd current)),
      rw destroyed (gone (has_hwnd hwnd previous) (has_hwnd hwnd current)),
    )
  where
    gone : (before after : Bool) → ((before && not after) && after) ≡ false
    gone true true = refl
    gone true false = refl
    gone false after = refl
