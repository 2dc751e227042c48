-- ===== src/Outcome.antt =====
-- What a call of the program ends in: a value or a raised exception; and methods of an object,
-- which read and write its state and keep what was written before a raise.
pub mod Action
pub mod Hoare
use project_fifty.Prelude.{String, ◌≡◌, refl, ◌⊎◌, inl, inr, Bool, true, false, Option, none, some}

-- The exceptions that the modelled code raises, with the text of the raise. pydantic's
-- `ValidationError` is a `ValueError`.
pub data Error : Type 0 where
  value_error runtime_error key_error index_error assertion_error decimal_error permission_error
        http_error timeout_error :
      String → Error

pub data Result {ℓ} (A : Type ℓ) : Type ℓ where
  ok : A → Result A
  err : Error → Result A

-- A chain stops at its first raise.
module _ {ℓ κ} {X : Type ℓ} {Y : Type κ} where
  infixl 5 ◌>>=◌
  abbrev pub ◌>>=◌ : Result X → (X → Result Y) → Result Y
  err raised >>= next = err raised
  ok x >>= next = next x

  -- What a chain that returned went through
  pub >>=-eq-ok :
      (first : Result X) (next : X → Result Y) {y : Y}
      → (first >>= next) ≡ ok y
      → (x : X) × (first ≡ ok x) × (next x ≡ ok y)
  >>=-eq-ok (err raised) next h = cc
  >>=-eq-ok (ok x) next h = (x, refl, h)

module _ {κ} {Y : Type κ} where
  infixl 5 ◌>>◌
  abbrev pub ◌>>◌ : Result (Unit {0}) → Result Y → Result Y
  first >> next = first >>= λ _. next

  pub >>-eq-ok :
      (first : Result (Unit {0})) (next : Result Y) {y : Y}
      → (first >> next) ≡ ok y
      → (first ≡ ok tt) × (next ≡ ok y)
  >>-eq-ok (err raised) next h = cc
  >>-eq-ok (ok tt) next h = (refl, h)

-- `if test: raise e`
abbrev pub raise_if : Bool → Error → Result (Unit {0})
raise_if true e = err e
raise_if false e = ok tt

-- `d[k]`, for the result of the lookup
abbrev pub or_raise {ℓ} : {A : Type ℓ} → Option A → Error → Result A
or_raise none e = err e
or_raise (some a) e = ok a

pub or_raise-some {ℓ} :
    {A : Type ℓ} (o : Option A) (e : Error) (a : A) → or_raise o e ≡ ok a → o ≡ some a
or_raise-some none e a h = cc
or_raise-some (some b) e a h = cc

pub Result-cases {ℓ} :
    {A : Type ℓ} (r : Result A) → ((a : A) × (r ≡ ok a)) ⊎ ((e : Error) × (r ≡ err e))
Result-cases (ok a) = inl (a, refl)
Result-cases (err e) = inr (e, refl)

pub ok_injective {ℓ} : {A : Type ℓ} (a b : A) → ok a ≡ ok b → a ≡ b
ok_injective a b h = cc
