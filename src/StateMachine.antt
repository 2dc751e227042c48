-- ===== src/StateMachine.antt =====
-- src/project_fifty/execution/state_machine.py: the life of an order.
pub mod Reach
use project_fifty.Prelude.{◌≡◌, Bool, true, false, ◌||◌, List, [], ◌∷◌, arith, if◌then◌else◌}
use project_fifty.Outcome.{Result, ok, err, value_error}
use project_fifty.Domain.{
  OrderStatus, status_eq, created, validated, submitting, acknowledged, partially_filled, filled,
  rejected, cancel_pending, cancelled, unknown,
}

-- `_ALLOWED_TRANSITIONS`
unfoldable pub allowed_transitions : OrderStatus → List OrderStatus
allowed_transitions created = validated ∷ rejected ∷ []
allowed_transitions validated = submitting ∷ rejected ∷ []
allowed_transitions submitting =
    acknowledged ∷ partially_filled ∷ filled ∷ cancel_pending ∷ cancelled ∷ unknown ∷ rejected ∷ []
allowed_transitions acknowledged =
    partially_filled ∷ filled ∷ cancel_pending ∷ cancelled ∷ unknown ∷ rejected ∷ []
allowed_transitions partially_filled =
    partially_filled ∷ filled ∷ cancel_pending ∷ cancelled ∷ unknown ∷ rejected ∷ []
allowed_transitions cancel_pending = partially_filled ∷ filled ∷ cancelled ∷ unknown ∷ []
allowed_transitions unknown =
    acknowledged ∷ partially_filled ∷ filled ∷ cancel_pending ∷ cancelled ∷ rejected ∷ []
allowed_transitions filled = []
allowed_transitions rejected = []
allowed_transitions cancelled = []

-- `status in statuses`
unfoldable pub status_in : OrderStatus → List OrderStatus → Bool
unfolding status_eq
status_in s [] = false
status_in s (t ∷ ts) = status_eq t s || status_in s ts

-- `OrderStateMachine.transition`: the machine is its status.
unfoldable pub transition : OrderStatus → OrderStatus → Result OrderStatus
unfolding allowed_transitions status_in
transition current next =
    if status_in next (allowed_transitions current)
    then ok next
    else err (value_error "invalid transition")

-- `_TERMINAL_ORDER_STATES` of execution/kernel.py
unfoldable pub is_terminal : OrderStatus → Bool
unfolding status_in
is_terminal s = status_in s (filled ∷ rejected ∷ cancelled ∷ [])
