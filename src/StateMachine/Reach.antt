-- ===== src/StateMachine/Reach.antt =====
-- The transitions of an order as a relation, and what an order can come to.
use project_fifty.Prelude.{
  ℕ, ◌≤◌, ◌≡◌, ◌≢◌, refl, sym, subst, ◌↔◌, inl, inr, true, false, arith, Bool-cases,
}
use project_fifty.Outcome.{ok}
use project_fifty.Domain.{
  OrderStatus, created, validated, submitting, acknowledged, partially_filled, filled,
  cancel_pending, unknown,
}
use project_fifty.StateMachine.{transition, is_terminal}

-- One accepted call of `transition`.
pub data Step (s t : OrderStatus) : Type 0 where
  step : transition s t ≡ ok t → Step s t

-- Any number of accepted calls.
pub data Reach (s : OrderStatus) : OrderStatus → Type 0 where
  here : Reach s s
  next : {t u : OrderStatus} → Reach s t → Step t u → Reach s u

is_terminal-stuck : (s t : OrderStatus) → is_terminal s ≡ true → transition s t ≢ ok t
unfolding is_terminal transition
is_terminal-stuck filled t h = ground arith
is_terminal-stuck s t h = ground arith

-- One way on for each status that has one.
onward : OrderStatus → OrderStatus
onward created = validated
onward validated = submitting
onward submitting = unknown
onward acknowledged = unknown
onward partially_filled = unknown
onward cancel_pending = unknown
onward _ = acknowledged

onward-transition :
    (s : OrderStatus) → is_terminal s ≡ false → transition s (onward s) ≡ ok (onward s)
unfolding is_terminal transition onward
onward-transition filled h = ground arith
onward-transition s h = ground arith

-- A status is one of the terminal ones that the kernel lists exactly when the table allows no
-- transition out of it.
is_terminal_iff :
    (s : OrderStatus) → (is_terminal s ≡ true) ↔ ((t : OrderStatus) → transition s t ≢ ok t)
is_terminal_iff s = (
  λ h t. is_terminal-stuck s t h,
  λ stuck. elim (Bool-cases (is_terminal s)) [
    | inl h ↦ h
    | inr h ↦ absurd (stuck (onward s) (onward-transition s h))
  ],
)

-- A terminal order keeps its status under any sequence of accepted transitions.
Reach-terminal : (s t : OrderStatus) → is_terminal s ≡ true → Reach s t → t ≡ s
Reach-terminal s t h here = refl
Reach-terminal s u h (next {t = t} r (step e)) =
    let same = Reach-terminal s t h r in
    absurd (is_terminal-stuck t u (subst (λ x. is_terminal x ≡ true) (sym same) h) e)

-- How far an order has come: not yet sent, being sent, at the broker.
abbrev pub phase : OrderStatus → ℕ
phase created = 0
phase validated = 1
phase submitting = 2
phase _ = 3

phase-transition : (s t : OrderStatus) → transition s t ≡ ok t → phase s ≤ phase t
unfolding transition
phase-transition created t h = ground arith
phase-transition s t h = ground arith

-- No sequence of accepted transitions takes an order back: from the entry to the check, from there
-- to the submission, and from there to a status at the broker, never the other way.
pub Reach-phase : (s t : OrderStatus) → Reach s t → phase s ≤ phase t
Reach-phase s t here = omega arith
Reach-phase s u (next {t = t} r (step e)) = omega (arith, Reach-phase s t r, phase-transition t u e)
