-- ===== src/Keeps/Rules.antt =====
-- A rule for each way to build an action of crates/wm-core/src/state_store.rs.
use flowtile_wm.Base.{◌≡◌, refl, Bool, true, false, Option, none, some, if◌then◌else◌, ok, err}
use flowtile_wm.Domain.{WmState}
use flowtile_wm.Store.{
  CoreError, Outcome, Action, pure, raise, reads, asks, returning, choose, modify, resume, ◌>>=◌,
}

-- The state that an action leaves has the property, if the state before it had.
pub record Keeps {A : Type 0} (P : WmState → Type 0) (action : Action A) : Type 0 where
  pub at : (before : WmState) → P before → P (action before).1

-- A change of the state that keeps the property, as the last step of an action.
module _ {P : WmState → Type 0} where
  pub Keeps-modify :
      (change : WmState → WmState)
      → ((before : WmState) → P before → P (change before))
      → Keeps P (modify change)
  unfolding modify
  Keeps-modify change kept = record { at = kept }

  pub Keeps-returning :
      {A : Type 0} (change : WmState → A × WmState)
      → ((before : WmState) → P before → P (change before).1)
      → Keeps P (returning change)
  unfolding returning
  Keeps-returning change kept = record { at = kept }

  -- An action that leaves the state as it is.
  Keeps-same :
      {A : Type 0} (action : Action A)
      → ((before : WmState) → (action before).1 ≡ before)
      → Keeps P action
  Keeps-same action same = record { at = λ before has. rw (same before) has }

-- The tests and the choices of a method.
module _ {P : WmState → Type 0} {A : Type 0} where
  pub Keeps-choose :
      {B : Type 0} (o : Option B) (otherwise : Action A) (chosen : B → Action A)
      → Keeps P otherwise
      → ((b : B) → Keeps P (chosen b))
      → Keeps P (choose o otherwise chosen)
  unfolding choose
  Keeps-choose none otherwise chosen left right = left
  Keeps-choose (some b) otherwise chosen left right = right b

  pub Keeps-if :
      (test : Bool) (first second : Action A)
      → Keeps P first
      → Keeps P second
      → Keeps P (if test then first else second)
  Keeps-if false first second left right = right
  Keeps-if true first second left right = left

  -- What only looks at the state.
  pub Keeps-asks : (question : WmState → A) → Keeps P (asks question)
  unfolding asks
  Keeps-asks question = Keeps-same (asks question) (λ before. refl)

  pub Keeps-reads : (question : WmState → Outcome A) → Keeps P (reads question)
  unfolding reads
  Keeps-reads question = Keeps-same (reads question) (λ before. refl)

  pub Keeps-raise : (error : CoreError) → Keeps P (raise {A = A} error)
  unfolding raise
  Keeps-raise error = Keeps-same (raise error) (λ before. refl)

  pub Keeps-pure : (value : A) → Keeps P (pure value)
  unfolding pure
  Keeps-pure value = Keeps-same (pure value) (λ before. refl)

  -- The rest of a method, after a step with this outcome.
  Keeps-resume :
      {B : Type 0} (outcome : Outcome B) (rest : B → Action A) (after : WmState)
      → P after
      → ((b : B) → Keeps P (rest b))
      → P (resume outcome rest after).1
  Keeps-resume (err error) rest after has later = has
  Keeps-resume (ok b) rest after has later = (later b).at after has

  pub Keeps-bind :
      {B : Type 0} (step : Action B) (rest : B → Action A)
      → Keeps P step
      → ((b : B) → Keeps P (rest b))
      → Keeps P (step >>= rest)
  unfolding ◌>>=◌
  Keeps-bind step rest now later = record {
    at = λ before has.
        let (outcome, after) = step before in
        Keeps-resume outcome rest after (now.at before has) later;
  }

pub ruleset keeps_rules = (
  Keeps-bind, Keeps-modify, Keeps-returning, Keeps-choose, Keeps-if, Keeps-asks, Keeps-reads,
  Keeps-raise, Keeps-pure,
)
