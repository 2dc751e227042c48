-- ===== src/Kernel/Assess.antt =====
-- What the kernel asks the risk engine, and the order that a proposal turns into.
use project_fifty.Prelude.{
  ℕ, String, ◌≡◌, refl, subst, inl, inr, arith, Option, none, some, List, Bool-cases,
}
use project_fifty.Outcome.{ok, >>=-eq-ok, >>-eq-ok, ok_injective}
use project_fifty.Decimal.{Decimal, mul}
use project_fifty.Domain.{
  TradeProposal, OrderIntent, OrderSide, ExecutionReport, PortfolioState, RiskDecision, positive,
  create_intent,
}
use project_fifty.Settings.{Settings}
use project_fifty.Control.{ControlState}
use project_fifty.Risk.{is_opening, is_passive, evaluate}
use project_fifty.Kernel.State.{Memory}
use project_fifty.Kernel.Capital.{
  authorized_portfolio, available_authorized_cash, position_quantity, new_order, derive_intent,
}
use project_fifty.Kernel.Handle.{assess}

-- The order that is derived, and the decision on it with the kernel's own portfolio and cash
pub record IsAssessed (s : Settings) (uuid : String) (now : ℕ) (p : TradeProposal) (m : Memory)
    (control : ControlState) (assessed : Option OrderIntent × RiskDecision) : Type 0 where
  pub portfolio : PortfolioState
  pub cash : Decimal
  pub derived : derive_intent s uuid p m.reports ≡ ok assessed.0
  pub authorized : authorized_portfolio s m.reports ≡ ok portfolio
  pub available : available_authorized_cash s m ≡ ok cash
  pub decided :
      assessed.1
      ≡ evaluate s p assessed.0 cash
          (position_quantity p.symbol portfolio)
          control
          m.known_idempotency_keys
          now

pub assess-cases :
    (s : Settings) (uuid : String) (now : ℕ) (p : TradeProposal) (m : Memory)
    (control : ControlState) (assessed : Option OrderIntent × RiskDecision)
    → assess s uuid now p m control ≡ ok assessed
    → IsAssessed s uuid now p m control assessed
unfolding assess
assess-cases s uuid now p m control assessed h =
    let (intent, derived, h1) = >>=-eq-ok (derive_intent s uuid p m.reports) _ h in
    let (portfolio, authorized, h2) = >>=-eq-ok (authorized_portfolio s m.reports) _ h1 in
    let (cash, available, h3) = >>=-eq-ok (available_authorized_cash s m) _ h2 in
    subst (IsAssessed s uuid now p m control) (ok_injective _ _ h3) (record {
      portfolio = portfolio;
      cash = cash;
      derived = derived;
      authorized = authorized;
      available = available;
      decided = refl;
    })

-- A new order: the uuid, the proposal's key and symbol, the side, and the notional of its quantity.
pub record IsOrderFor (uuid : String) (p : TradeProposal) (side : OrderSide) (i : OrderIntent)
    : Type 0 where
  pub id : i.intent_id ≡ uuid
  pub key : i.idempotency_key ≡ p.idempotency_key
  pub symbol : i.symbol ≡ p.symbol
  pub sided : i.side ≡ side
  pub notional : i.notional ≡ mul i.quantity i.reference_price

create_intent-IsOrderFor :
    (uuid : String) (p : TradeProposal) (side : OrderSide) (quantity : Decimal) (i : OrderIntent)
    → create_intent uuid p.idempotency_key p.proposal_id p.symbol side quantity p.reference_price
        p.quote_currency
      ≡ ok i
    → IsOrderFor uuid p side i
unfolding create_intent
create_intent-IsOrderFor uuid p side quantity i h =
    let (_, h1) = >>-eq-ok (positive quantity) _ h in
    let (_, h2) = >>-eq-ok (positive p.reference_price) _ h1 in
    let (_, h3) = >>-eq-ok (positive (mul quantity p.reference_price)) _ h2 in
    subst (IsOrderFor uuid p side) (ok_injective _ _ h3)
      (record { id = refl; key = refl; symbol = refl; sided = refl; notional = refl })

new_order-IsOrderFor :
    (uuid : String) (p : TradeProposal) (side : OrderSide) (quantity : Option Decimal)
    (i : OrderIntent)
    → new_order uuid p side quantity ≡ ok (some i)
    → IsOrderFor uuid p side i
unfolding new_order
new_order-IsOrderFor uuid p side none i h = absurd (ground arith)
new_order-IsOrderFor uuid p side (some quantity) i h =
    let (j, created, same) =
      >>=-eq-ok
        (create_intent uuid p.idempotency_key p.proposal_id p.symbol side quantity p.reference_price
          p.quote_currency)
        _ h in
    let e : j ≡ i = cc in
    subst (IsOrderFor uuid p side) e (create_intent-IsOrderFor uuid p side quantity j created)

-- The order that is derived from a proposal is for it, under the uuid, and buys or sells as the
-- action says.
pub derive_intent-IsOrderFor :
    (s : Settings) (uuid : String) (p : TradeProposal) (reports : List ExecutionReport)
    (i : OrderIntent)
    → derive_intent s uuid p reports ≡ ok (some i)
    → (side : OrderSide) × IsOrderFor uuid p side i
unfolding derive_intent
derive_intent-IsOrderFor s uuid p reports i h = elim (Bool-cases (is_passive p.action)) [
  | inl passive ↦ absurd (ground arith)
  | inr active ↦
      let (portfolio, _, h1) = >>=-eq-ok (authorized_portfolio s reports) _ (rw active at h) in
      elim (Bool-cases (is_opening p.action)) [
        | inl opening ↦
            (OrderSide.buy, new_order-IsOrderFor uuid p _ p.quantity i (rw opening at h1))
        | inr closing ↦ (OrderSide.sell, new_order-IsOrderFor uuid p _ _ i (rw closing at h1))
      ]
]

pub derive_intent-id :
    (s : Settings) (uuid : String) (p : TradeProposal) (reports : List ExecutionReport)
    (i : OrderIntent)
    → derive_intent s uuid p reports ≡ ok (some i)
    → i.intent_id ≡ uuid
derive_intent-id s uuid p reports i h = (derive_intent-IsOrderFor s uuid p reports i h).1.id
