-- ===== src/Touchpad/Inserts.antt =====
-- What `insert_bindings`, the loop of `from_config` in apps/core-daemon/src/touchpad/bindings.rs, makes
-- of the bindings when it adds as many keys as there are bindings.
use mathlib.Core.Path.{subst}
use flowtile_wm.Base.{
  ℕ, suc, ◌+◌, ◌≤◌, ◌≡◌, ◌≢◌, refl, sym, ap, ◌∙◌, false, Option, none, some, List, [], ◌∷◌, length,
  All, ok, and_then_ok-eq-ok, ok-injective, ok_or, Bool-cases, ◌==◌, ==_iff, inl, inr, is_some,
  arith,
}
use flowtile_wm.Base.Map.{Map, get, put, get-put, length-put}
use flowtile_wm.Hotkeys.Commands.{WatchCommand, from_input_command}
use flowtile_wm.Touchpad.Gestures.{
  TouchpadGesture, TouchpadGestureBinding, NormalizedTouchpadBinding, parse_gesture, gesture_key,
  normalize_binding, insert_bindings,
}

-- Inserting all bindings adds at most their number of keys.
insert_bindings-length :
    (bs : List TouchpadGestureBinding) (m : Map WatchCommand) {m' : Map WatchCommand}
    → insert_bindings bs m ≡ ok m'
    → length m' ≤ length bs + length m
unfolding insert_bindings
insert_bindings-length [] m {m'} h = rw (ok-injective m m' h) (omega arith)
insert_bindings-length (b ∷ bs) m h =
    let (n, e, r) = and_then_ok-eq-ok (normalize_binding b) _ h in
    let wider = length-put (gesture_key n.gesture) n.command m in
    let rest = insert_bindings-length bs _ r in ground (arith, wider, rest)

-- A key that makes a map longer was not there.
put-new :
    (key : ℕ) (v : WatchCommand) (m : Map WatchCommand) (n more : ℕ)
    → n ≡ suc more + length m
    → n ≤ more + length (put key v m)
    → (n ≡ more + length (put key v m)) × (is_some (get key m) ≡ false)
put-new key v m n more h l = elim (Bool-cases (is_some (get key m))) [
  | inl t ↦ absurd (ground (arith, length-put key v m))
  | inr f ↦ (ground (arith, length-put key v m), f)
]

-- It does not change what the other keys have.
put-kept :
    (key : ℕ) (v : WatchCommand) (m : Map WatchCommand) (k : ℕ) {command : WatchCommand}
    → is_some (get key m) ≡ false
    → get k m ≡ some command
    → get k (put key v m) ≡ some command
put-kept key v m k f g = elim (Bool-cases (key == k)) [
  | inl t ↦ absurd (clash ((==_iff key k).0 t))
  | inr ne ↦ get-put key v m k ∙ rw ne g
]
  where
    clash : key ≡ k → ⊥
    clash e = let f' = rw (e, g) at f in cc

-- If as many keys were added as there are bindings, what the map had is still there.
insert_bindings-kept :
    (bs : List TouchpadGestureBinding) (m : Map WatchCommand) {m' : Map WatchCommand} (k : ℕ)
    (command : WatchCommand)
    → insert_bindings bs m ≡ ok m'
    → length m' ≡ length bs + length m
    → get k m ≡ some command
    → get k m' ≡ some command
unfolding insert_bindings
insert_bindings-kept [] m {m'} k command h l g = rw⁻¹ (ok-injective m m' h) g
insert_bindings-kept (b ∷ bs) m k command h l g =
    let (n, e, r) = and_then_ok-eq-ok (normalize_binding b) _ h in
    let (l', new) =
      put-new (gesture_key n.gesture) n.command m _ (length bs) l (insert_bindings-length bs _ r) in
    insert_bindings-kept bs _ k command r l' (put-kept (gesture_key n.gesture) n.command m k new g)

-- The binding is one that the code accepts, and its gesture runs its command.
pub record IsBound (m : Map WatchCommand) (binding : TouchpadGestureBinding) : Type 0 where
  pub gesture : TouchpadGesture
  pub command : WatchCommand
  pub parses : parse_gesture binding.gesture ≡ ok gesture
  pub known : from_input_command binding.command ≡ some command
  pub runs : get (gesture_key gesture) m ≡ some command

ok_or-eq-ok {ℓ} : {E A : Type ℓ} (o : Option A) (e : E) {a : A} → ok_or o e ≡ ok a → o ≡ some a
ok_or-eq-ok none e h = cc
ok_or-eq-ok (some b) e h = cc

normalize_binding-IsBound :
    (b : TouchpadGestureBinding) (m : Map WatchCommand) {n : NormalizedTouchpadBinding}
    → normalize_binding b ≡ ok n
    → get (gesture_key n.gesture) m ≡ some n.command
    → IsBound m b
unfolding normalize_binding
normalize_binding-IsBound b m {n} h g =
    let (gesture, p, rest) = and_then_ok-eq-ok (parse_gesture b.gesture) _ h in
    let (command, q, last) = and_then_ok-eq-ok (ok_or (from_input_command b.command) _) _ rest in
    let same = ok-injective (record { gesture = gesture; command = command }) n last in
    record {
      gesture = gesture;
      command = command;
      parses = p;
      known = ok_or-eq-ok (from_input_command b.command) _ q;
      runs =
          subst (λ (z : NormalizedTouchpadBinding). get (gesture_key z.gesture) m ≡ some z.command)
            (sym same) g;
    }

pub insert_bindings-IsBound :
    (bs : List TouchpadGestureBinding) (m : Map WatchCommand) {m' : Map WatchCommand}
    → insert_bindings bs m ≡ ok m'
    → length m' ≡ length bs + length m
    → All (IsBound m') bs
unfolding insert_bindings
insert_bindings-IsBound [] m h l = tt
insert_bindings-IsBound (b ∷ bs) m {m'} h l =
    let (n, e, r) = and_then_ok-eq-ok (normalize_binding b) _ h in
    let key = gesture_key n.gesture in
    let (l', new) = put-new key n.command m _ (length bs) l (insert_bindings-length bs _ r) in
    let here = get-put key n.command m key ∙ ground arith in
    (
      normalize_binding-IsBound b m' e (insert_bindings-kept bs _ key n.command r l' here),
      insert_bindings-IsBound bs _ r l',
    )

-- No binding has a gesture with the given key.
abbrev HasOtherKey : ℕ → TouchpadGestureBinding → Type 0
HasOtherKey key binding =
    (gesture : TouchpadGesture)
    → parse_gesture binding.gesture ≡ ok gesture
    → gesture_key gesture ≢ key

-- No two bindings have the same gesture.
abbrev pub AreDistinct : List TouchpadGestureBinding → Type 0
AreDistinct [] = Unit
AreDistinct (b ∷ bs) =
    All (λ other. parse_gesture other.gesture ≢ parse_gesture b.gesture) bs × AreDistinct bs

normalize_binding-gesture :
    (b : TouchpadGestureBinding) {n : NormalizedTouchpadBinding}
    → normalize_binding b ≡ ok n
    → parse_gesture b.gesture ≡ ok n.gesture
unfolding normalize_binding
normalize_binding-gesture b {n} h =
    let (gesture, p, rest) = and_then_ok-eq-ok (parse_gesture b.gesture) _ h in
    let (command, q, last) = and_then_ok-eq-ok (ok_or (from_input_command b.command) _) _ rest in
    let same = ok-injective (record { gesture = gesture; command = command }) n last in
    p ∙ ap (λ (z : NormalizedTouchpadBinding). ok z.gesture) same

-- If as many keys were added as there are bindings, no binding has a key that the map had.
insert_bindings-new :
    (bs : List TouchpadGestureBinding) (m : Map WatchCommand) {m' : Map WatchCommand} (k : ℕ)
    (command : WatchCommand)
    → insert_bindings bs m ≡ ok m'
    → length m' ≡ length bs + length m
    → get k m ≡ some command
    → All (HasOtherKey k) bs
unfolding insert_bindings
insert_bindings-new [] m k command h l g = tt
insert_bindings-new (b ∷ bs) m k command h l g =
    let (n, e, r) = and_then_ok-eq-ok (normalize_binding b) _ h in
    let key = gesture_key n.gesture in
    let (l', new) = put-new key n.command m _ (length bs) l (insert_bindings-length bs _ r) in
    (
      λ gesture p same. clash new (
          ap gesture_key (ok-injective n.gesture gesture (sym (normalize_binding-gesture b e) ∙ p))
          ∙ same),
      insert_bindings-new bs _ k command r l' (put-kept key n.command m k new g),
    )
  where
    clash : {key : ℕ} → is_some (get key m) ≡ false → key ≢ k
    clash f e = let f' = rw (e, g) at f in cc

other_gestures :
    (b : TouchpadGestureBinding) (n : NormalizedTouchpadBinding) (bs : List TouchpadGestureBinding)
    → normalize_binding b ≡ ok n
    → All (HasOtherKey (gesture_key n.gesture)) bs
    → All (λ other. parse_gesture other.gesture ≢ parse_gesture b.gesture) bs
other_gestures b n [] h k = tt
other_gestures b n (other ∷ bs) h (k, ks) =
    (λ same. k n.gesture (same ∙ normalize_binding-gesture b h) refl, other_gestures b n bs h ks)

pub insert_bindings-AreDistinct :
    (bs : List TouchpadGestureBinding) (m : Map WatchCommand) {m' : Map WatchCommand}
    → insert_bindings bs m ≡ ok m'
    → length m' ≡ length bs + length m
    → AreDistinct bs
unfolding insert_bindings
insert_bindings-AreDistinct [] m h l = tt
insert_bindings-AreDistinct (b ∷ bs) m h l =
    let (n, e, r) = and_then_ok-eq-ok (normalize_binding b) _ h in
    let key = gesture_key n.gesture in
    let (l', new) = put-new key n.command m _ (length bs) l (insert_bindings-length bs _ r) in
    let here = get-put key n.command m key ∙ ground arith in
    (
      other_gestures b n bs e (insert_bindings-new bs _ key n.command r l' here),
      insert_bindings-AreDistinct bs _ r l',
    )
