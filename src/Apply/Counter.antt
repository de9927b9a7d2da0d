-- ===== src/Apply/Counter.antt =====
-- How the check of crates/wm-core/src/runtime/validation.rs counts the cycles that diverge.
use flowtile_wm.Base.{
  ℕ, suc, ◌+◌, ◌≤◌, ◌≡◌, refl, Bool, true, false, Option, none, some, String, List, if◌then◌else◌,
  arith,
}
use flowtile_wm.Base.Words.{wrap_u32}
use flowtile_wm.Apply.Platform.{ApplyOperation}
use flowtile_wm.Apply.Policy.{should_auto_unwind_after_desync}
use flowtile_wm.Apply.Validation.{
  Health, push_degraded_reason, note_cleanup, request_emergency_unwind, settled,
}

-- The counter is at most `n`, and management stops only at three.
pub record IsWithin (n : ℕ) (h : Health) : Type 0 where
  pub counter : h.consecutive_desync_cycles ≤ n
  pub stops : h.management_enabled ≡ false → 3 ≤ n

pub IsWithin-more : (n m : ℕ) (h : Health) → n ≤ m → IsWithin n h → IsWithin m h
IsWithin-more n m h le k = record {
  counter = omega (arith, k.counter);
  stops = λ e. let three = k.stops e in omega (arith, three);
}

pub push-same :
    (reason : String) (h : Health)
    → ((push_degraded_reason reason h).consecutive_desync_cycles ≡ h.consecutive_desync_cycles)
      × ((push_degraded_reason reason h).management_enabled ≡ h.management_enabled)
unfolding push_degraded_reason
push-same reason h = (ground arith, ground arith)

pub IsWithin-push :
    (n : ℕ) (reason : String) (h : Health)
    → IsWithin n h
    → IsWithin n (push_degraded_reason reason h)
IsWithin-push n reason h k =
    let (c, m) = push-same reason h in record { counter = rw c k.counter; stops = rw m k.stops }

pub IsWithin-settled : (n : ℕ) (h : Health) → IsWithin n h → IsWithin n (settled h)
IsWithin-settled n h k = record { counter = omega arith; stops = k.stops }

pub IsWithin-cleanup :
    (n : ℕ) (error : Option String) (h : Health) → IsWithin n h → IsWithin n (note_cleanup error h)
unfolding note_cleanup
IsWithin-cleanup n none h k = k
IsWithin-cleanup n (some error) h k = IsWithin-push n _ h k

pub IsWithin-unwind :
    (n : ℕ) (error : Option String) (reason : String) (h : Health)
    → 3 ≤ n
    → IsWithin n h
    → IsWithin n (request_emergency_unwind error reason h)
unfolding request_emergency_unwind
IsWithin-unwind n error reason h three k =
    IsWithin-push n _ _
      (IsWithin-cleanup n error _ (record { counter = k.counter; stops = λ e. three }))

-- The same of the state beside an answer.
pub record Within {A : Type 0} (n : ℕ) (result : A × Health) : Type 0 where
  pub within : IsWithin n result.1

module _ {A : Type 0} where
  pub Within-pair : (n : ℕ) (a : A) (h : Health) → IsWithin n h → Within {A = A} n (a, h)
  Within-pair n a h k = record { within = k }

  pub Within-if :
      (n : ℕ) (b : Bool) (x y : A × Health)
      → (b ≡ true → Within n x)
      → (b ≡ false → Within n y)
      → Within n (if b then x else y)
  Within-if n true x y h k = h refl
  Within-if n false x y h k = k refl

wrap-le : (n : ℕ) → wrap_u32 n ≤ n
wrap-le n = omega arith

pub unwinds-three :
    (operations : List ApplyOperation) (n : ℕ)
    → should_auto_unwind_after_desync operations n ≡ true
    → 3 ≤ n
unfolding should_auto_unwind_after_desync
unwinds-three operations n h = ground arith

-- The counter goes up by one.
pub raised-IsWithin :
    (n : ℕ) (h : Health)
    → IsWithin n h
    → IsWithin
        (suc n)
        (record h { consecutive_desync_cycles = wrap_u32 (h.consecutive_desync_cycles + 1) })
raised-IsWithin n h k = record {
  counter = omega (arith, k.counter, wrap-le (h.consecutive_desync_cycles + 1));
  stops = λ e. let three = k.stops e in omega (arith, three);
}
