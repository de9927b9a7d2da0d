-- ===== src/Store/Reading.antt =====
-- `?` in the methods of `StateStore` that only read the state.
use flowtile_wm.Base.{and_then_ok}
use flowtile_wm.Store.Methods.{Outcome}

infixl 5 ◌>>=◌
abbrev pub ◌>>=◌ : {A B : Type 0} → Outcome A → (A → Outcome B) → Outcome B
m >>= f = and_then_ok m f
