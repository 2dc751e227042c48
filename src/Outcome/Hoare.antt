-- ===== src/Outcome/Hoare.antt =====
-- What a method does, from a state with `P`: it returns in a state with `Q`, or raises in one with
-- `E`. The rules follow the ways to build a method.
use project_fifty.Prelude.{◌≡◌, refl, Bool, true, false}
use project_fifty.Outcome.{Error, Result, ok, err}
use project_fifty.Outcome.Action.{Action, pure, raise, read, go_on, ◌>>=◌, choose}

abbrev pub Ends : {S A : Type 0} → (A → S → Type 0) → (S → Type 0) → Result A × S → Type 0
Ends Q E (ok a, s) = Q a s
Ends Q E (err e, s) = E s

pub record Triple {S A : Type 0} (P : S → Type 0) (m : Action S A) (Q : A → S → Type 0)
    (E : S → Type 0) : Type 0 where
  pub at : (s : S) → P s → Ends Q E (m s)

module _ {S A B : Type 0} {E : S → Type 0} where
  go_on-Ends :
      (Q : A → S → Type 0) (R : B → S → Type 0) (f : A → Action S B)
      → ((a : A) → Triple (Q a) (f a) R E)
      → (r : Result A × S) → Ends Q E r
      → Ends R E (go_on f r)
  go_on-Ends Q R f rest (ok a, s) h = (rest a).at s h
  go_on-Ends Q R f rest (err e, s) h = h

  pub Triple-bind :
      {P : S → Type 0} (m : Action S A) (f : A → Action S B) (Q : A → S → Type 0)
      {R : B → S → Type 0}
      → Triple P m Q E
      → ((a : A) → Triple (Q a) (f a) R E)
      → Triple P (m >>= f) R E
  unfolding ◌>>=◌
  Triple-bind m f Q {R} first rest = record {
    at = λ s h. go_on-Ends Q R f rest (m s) (first.at s h);
  }

read-Ends :
    {S A : Type 0} (Q : A → S → Type 0) (E : S → Type 0) (s : S) (r : Result A)
    → ((a : A) → r ≡ ok a → Q a s)
    → E s
    → Ends Q E (r, s)
read-Ends Q E s (ok a) q e = q a refl
read-Ends Q E s (err x) q e = e

module _ {S A : Type 0} {P : S → Type 0} {Q : A → S → Type 0} {E : S → Type 0} where
  pub Triple-pure : (a : A) → ((s : S) → P s → Q a s) → Triple P (pure a) Q E
  unfolding pure
  Triple-pure a h = record { at = h }

  pub Triple-raise : (e : Error) → ((s : S) → P s → E s) → Triple P (raise e) Q E
  unfolding raise
  Triple-raise e h = record { at = h }

  pub Triple-read :
      (f : S → Result A)
      → ((s : S) (a : A) → f s ≡ ok a → P s → Q a s)
      → ((s : S) → P s → E s)
      → Triple P (read f) Q E
  unfolding read
  Triple-read f q e = record { at = λ s h. read-Ends Q E s (f s) (λ a r. q s a r h) (e s h) }

  pub Triple-choose :
      (b : Bool) (m n : Action S A)
      → (b ≡ true → Triple P m Q E)
      → (b ≡ false → Triple P n Q E)
      → Triple P (choose b m n) Q E
  unfolding choose
  Triple-choose true m n h k = record { at = (h refl).at }
  Triple-choose false m n h k = record { at = (k refl).at }

module _ {S A : Type 0} {Q Q' : A → S → Type 0} {E E' : S → Type 0} where
  Ends-weaken :
      ((a : A) (s : S) → Q a s → Q' a s)
      → ((s : S) → E s → E' s)
      → (r : Result A × S) → Ends Q E r
      → Ends Q' E' r
  Ends-weaken q e (ok a, s) h = q a s h
  Ends-weaken q e (err x, s) h = e s h

  pub Triple-weaken :
      {P P' : S → Type 0} {m : Action S A}
      → ((s : S) → P' s → P s)
      → ((a : A) (s : S) → Q a s → Q' a s)
      → ((s : S) → E s → E' s)
      → Triple P m Q E
      → Triple P' m Q' E'
  Triple-weaken {m} p q e t = record { at = λ s h. Ends-weaken q e (m s) (t.at s (p s h)) }
