-- ===== src/Base/Outcome.antt =====
-- `Result<T, E>`, and `?` as its bind.
use mathlib.Core.Path.{◌≡◌, refl, sym}
use mathlib.Core.Logic.{◌⊎◌, inl, inr}
use mathlib.Core.Option.{Option, none, some}

pub data Result {ℓ} (E A : Type ℓ) : Type ℓ where
  ok : A → Result E A
  err : E → Result E A

-- `ok_or`.
abbrev pub ok_or {ℓ} : {E A : Type ℓ} → Option A → E → Result E A
ok_or none e = err e
ok_or (some a) e = ok a

-- `map_err`, which is what `?` does through `From`.
abbrev pub map_err {ℓ} : {E F A : Type ℓ} → (E → F) → Result E A → Result F A
map_err f (ok a) = ok a
map_err f (err e) = err (f e)

abbrev pub and_then_ok {ℓ} : {E A B : Type ℓ} → Result E A → (A → Result E B) → Result E B
and_then_ok (ok a) f = f a
and_then_ok (err e) f = err e

-- Inversion of a chain that succeeds.
pub and_then_ok-eq-ok {ℓ} :
    {E A B : Type ℓ} (m : Result E A) (f : A → Result E B) {b : B}
    → and_then_ok m f ≡ ok b
    → (a : A) × (m ≡ ok a) × (f a ≡ ok b)
and_then_ok-eq-ok (ok a) f h = (a, refl, h)
and_then_ok-eq-ok (err e) f h = cc

pub Result-cases {ℓ} :
    {E A : Type ℓ} (r : Result E A) → ((a : A) × (r ≡ ok a)) ⊎ ((e : E) × (r ≡ err e))
Result-cases (ok a) = inl (a, refl)
Result-cases (err e) = inr (e, refl)

-- A property of the value, if there is one.
pub record Ensures {ℓ} {E A : Type ℓ} (P : A → Type ℓ) (r : Result E A) : Type ℓ where
  pub holds : (a : A) → r ≡ ok a → P a

pub Ensures-bind {ℓ} :
    {E A B : Type ℓ} {P : B → Type ℓ} (m : Result E A) (f : A → Result E B)
    → ((a : A) → m ≡ ok a → Ensures P (f a))
    → Ensures P (and_then_ok m f)
Ensures-bind (ok a) f h = h a refl
Ensures-bind (err e) f h = record { holds = λ a k. cc }

module _ {ℓ} {E A : Type ℓ} where
  pub ok-injective : (a b : A) → ◌≡◌ {A = Result E A} (ok a) (ok b) → a ≡ b
  ok-injective a b h = cc

  pub Ensures-ok : (P : A → Type ℓ) (a : A) → P a → Ensures {E = E} P (ok a)
  Ensures-ok P a h = record { holds = λ b k. rw (sym (ok-injective a b k)) h }

pub Ensures-err {ℓ} : {E A : Type ℓ} (P : A → Type ℓ) (e : E) → Ensures {A = A} P (err e)
Ensures-err P e = record { holds = λ a k. cc }
