-- ===== src/Outcome/Action.antt =====
-- A method of an object: it reads and writes the state, and a raise keeps what was written.
use project_fifty.Prelude.{Bool, true, false}
use project_fifty.Outcome.{Error, Result, ok, err}

abbrev pub Action : Type 0 → Type 0 → Type 0
Action S A = S → Result A × S

module _ {S A : Type 0} where
  unfoldable pub pure : A → Action S A
  pure a s = (ok a, s)

  unfoldable pub raise : Error → Action S A
  raise e s = (err e, s)

  -- A computation that reads the state and may raise
  unfoldable pub read : (S → Result A) → Action S A
  read f s = (f s, s)

unfoldable pub modify : {S : Type 0} → (S → S) → Action S (Unit {0})
modify f s = (ok tt, f s)

-- What comes next runs only after a call that returned.
abbrev pub go_on : {S A B : Type 0} → (A → Action S B) → Result A × S → Result B × S
go_on f (ok a, s) = f a s
go_on f (err e, s) = (err e, s)

infixl 5 ◌>>=◌ ◌>>◌
unfoldable pub ◌>>=◌ : {S A B : Type 0} → Action S A → (A → Action S B) → Action S B
◌>>=◌ m f s = go_on f (m s)

abbrev pub ◌>>◌ : {S A B : Type 0} → Action S A → Action S B → Action S B
m >> k = m >>= λ _. k

-- `if test: ... else: ...`
unfoldable pub choose : {S A : Type 0} → Bool → Action S A → Action S A → Action S A
choose b m n s = elim b [ true ↦ m s | false ↦ n s ]
