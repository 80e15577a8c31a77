-- ===== src/Exec.antt =====
-- Methods that read and write an object's state and may raise: what was written before a raise
-- stays written, so the state comes back beside an error too.
pub mod Rules
use adf.Prelude.{Bool, true, false}
use adf.Errors.{Error, Result, ok, err}

abbrev pub Exec {ℓ} : Type ℓ → Type ℓ → Type ℓ
Exec State A = State → Result A × State

-- what runs behind a result: nothing behind an exception
abbrev pub continue {ℓ} : {State A B : Type ℓ} → Result A → (A → Exec State B) → Exec State B
continue (err exc) next state = (err exc, state)
continue (ok a) next state = next a state

module _ {State : Type 0} where
  unfoldable pub modify : (State → State) → Exec State (Unit {0})
  modify change state = (ok tt, change state)

module _ {ℓ} {State A : Type ℓ} where
  unfoldable pub gets : (State → A) → Exec State A
  gets read state = (ok (read state), state)

  unfoldable pub lift : Result A → Exec State A
  lift result state = (result, state)

  unfoldable pub raise : Error → Exec State A
  unfolding lift
  raise exc = lift (err exc)

  unfoldable pub pure : A → Exec State A
  unfolding lift
  pure a = lift (ok a)

module _ {State : Type 0} where
  -- `if b: m`
  unfoldable pub when : Bool → Exec State (Unit {0}) → Exec State (Unit {0})
  unfolding pure
  when false m = pure tt
  when true m = m

infixl 5 ◌>>=◌ ◌>>◌
unfoldable pub ◌>>=◌ {ℓ} : {State A B : Type ℓ} → Exec State A → (A → Exec State B) → Exec State B
unfolding gets lift raise pure
◌>>=◌ m next state = continue (m state).0 next (m state).1

abbrev pub ◌>>◌ {ℓ} : {State A B : Type ℓ} → Exec State A → Exec State B → Exec State B
m >> n = m >>= λ _. n
