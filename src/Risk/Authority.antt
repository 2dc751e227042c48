-- ===== src/Risk/Authority.antt =====
-- What an approval grants, and what no mode can take away.
use mathlib.Core.Bool.{and-false}
use project_fifty.Prelude.{
  ℕ, ◌+◌, ◌*◌, ◌≤◌, ◌≡◌, refl, String, Bool, true, false, not, ◌&&◌, ◌||◌, arith, str_eq, eq_iff,
  contains, Option, none, some, List, if◌then◌else◌,
}
use project_fifty.Decimal.{Decimal, lt, le, eq, zero_dec}
use project_fifty.Settings.{Settings}
use project_fifty.Control.{ControlState}
use project_fifty.Domain.{TradeProposal, OrderIntent, RejectionReason, RiskDecision, is_buy}
use project_fifty.Risk.{
  is_opening, is_closing, is_passive, is_cancel, is_restricted, lacks_target, notional_mismatch,
  foreign_intent, total_cost, is_stale, deny, approve, evaluate_intent, evaluate,
}

-- What holds of every approved proposal.
pub record IsAdmitted (s : Settings) (p : TradeProposal) (control : ControlState)
    (known : List String) (now : ℕ) : Type 0 where
  pub permitted : contains p.symbol s.permitted_symbols ≡ true
  pub currency : p.quote_currency ≡ s.account_currency
  pub new_key : contains p.idempotency_key known ≡ false
  pub fresh : now ≤ p.reference_price_timestamp + s.max_stale_seconds * 1000000
  pub allowed :
      is_opening p.action ≡ true
      → (control.kill_switch_active ≡ false) × (is_restricted control.mode ≡ false)

-- What holds of every approved order: its price is the proposal's; a buy is paid in full, fee and
-- slippage included, from the authorised cash; a sale is covered by the position; the notional is
-- within the limit.
pub record IsCovered (s : Settings) (p : TradeProposal) (i : OrderIntent) (cash qty : Decimal)
    : Type 0 where
  pub priced : eq p.reference_price i.reference_price ≡ true
  pub limited : lt s.max_order_notional i.notional ≡ false
  pub buys : is_opening p.action ≡ true → is_buy i.side ≡ true
  pub sells : is_closing p.action ≡ true → is_buy i.side ≡ false
  pub held : is_closing p.action ≡ true → lt qty i.quantity ≡ false
  pub paid : is_buy i.side ≡ true → lt cash (total_cost p i) ≡ false

-- A guard that was passed.
passed :
    (test : Bool) (reason : RejectionReason) (rest : RiskDecision)
    → (if test then deny reason else rest).approved ≡ true
    → (test ≡ false) × (rest.approved ≡ true)
passed true reason rest h = cc
passed false reason rest h = (refl, h)

evaluate_intent-IsCovered :
    (s : Settings) (p : TradeProposal) (i : OrderIntent) (cash qty : Decimal)
    → (evaluate_intent s p i cash qty).approved ≡ true
    → IsCovered s p i cash qty
unfolding evaluate_intent
evaluate_intent-IsCovered s p i cash qty h =
    let (_, h1) = passed (notional_mismatch p.quantity p.notional p.reference_price) _ _ h in
    let (priced, h2) = passed (not (eq p.reference_price i.reference_price)) _ _ h1 in
    let (buys, h3) = passed (is_opening p.action && not (is_buy i.side)) _ _ h2 in
    let (sells, h4) = passed (is_closing p.action && is_buy i.side) _ _ h3 in
    let (held, h5) =
      passed (is_closing p.action && (le i.quantity zero_dec || lt qty i.quantity)) _ _ h4 in
    let (limited, h6) = passed (lt s.max_order_notional i.notional) _ _ h5 in
    let (paid, _) = passed (is_buy i.side && lt cash (total_cost p i)) _ _ h6 in
    record {
      priced = ground arith;
      limited = limited;
      buys = λ e. ground arith;
      sells = λ e. ground arith;
      held = λ e. ground arith;
      paid = λ e. ground arith;
    }

-- The end of `evaluate`, for an action that trades.
of_order :
    (s : Settings) (p : TradeProposal) (intent : Option OrderIntent) (cash qty : Decimal)
    → is_passive p.action ≡ false
    → (if is_passive p.action then approve else elim intent [
      | none ↦ deny RejectionReason.invalid_schema
      | some i ↦ evaluate_intent s p i cash qty
    ]).approved
      ≡ true
    → (i : OrderIntent) × (intent ≡ some i) × IsCovered s p i cash qty
of_order s p none cash qty active h = ground arith
of_order s p (some i) cash qty active h =
    (i, refl, evaluate_intent-IsCovered s p i cash qty (rw active at h))

module _ (s : Settings) (p : TradeProposal) (intent : Option OrderIntent) (cash qty : Decimal)
    (control : ControlState) (known : List String) (now : ℕ) where
  -- An approval means: the symbol is permitted, the currency is the account's, the key is new, the
  -- price is fresh, and an opening action meets no kill switch and neither SAFE nor DEAD mode.
  pub evaluate-IsAdmitted :
      (evaluate s p intent cash qty control known now).approved ≡ true
      → IsAdmitted s p control known now
  unfolding evaluate
  evaluate-IsAdmitted h =
      let (permitted, h1) = passed (not (contains p.symbol s.permitted_symbols)) _ _ h in
      let (currency, h2) = passed (not (str_eq p.quote_currency s.account_currency)) _ _ h1 in
      let (_, h3) = passed (foreign_intent intent s.account_currency) _ _ h2 in
      let (new_key, h4) = passed (contains p.idempotency_key known) _ _ h3 in
      let (_, h5) =
        passed (lt p.estimated_fee zero_dec || lt p.estimated_slippage zero_dec) _ _ h4 in
      let (fresh, h6) = passed (is_stale s p now) _ _ h5 in
      let (switch, h7) = passed (control.kill_switch_active && is_opening p.action) _ _ h6 in
      let (mode, _) = passed (is_restricted control.mode && is_opening p.action) _ _ h7 in
      record {
        permitted = ground arith;
        currency = ground (arith, eq_iff p.quote_currency s.account_currency);
        new_key = new_key;
        fresh = ground arith;
        allowed = λ opening. (ground arith, ground arith);
      }

  -- An approved trade (an action other than HOLD and CANCEL) has an order, and the order is covered.
  pub evaluate-IsCovered :
      is_passive p.action ≡ false
      → (evaluate s p intent cash qty control known now).approved ≡ true
      → (i : OrderIntent) × (intent ≡ some i) × IsCovered s p i cash qty
  unfolding evaluate
  evaluate-IsCovered active h =
      let (_, h1) = passed (not (contains p.symbol s.permitted_symbols)) _ _ h in
      let (_, h2) = passed (not (str_eq p.quote_currency s.account_currency)) _ _ h1 in
      let (_, h3) = passed (foreign_intent intent s.account_currency) _ _ h2 in
      let (_, h4) = passed (contains p.idempotency_key known) _ _ h3 in
      let (_, h5) =
        passed (lt p.estimated_fee zero_dec || lt p.estimated_slippage zero_dec) _ _ h4 in
      let (_, h6) = passed (is_stale s p now) _ _ h5 in
      let (_, h7) = passed (control.kill_switch_active && is_opening p.action) _ _ h6 in
      let (_, h8) = passed (is_restricted control.mode && is_opening p.action) _ _ h7 in
      let (_, h9) = passed (is_cancel p.action && lacks_target p.cancel_order_id) _ _ h8 in
      of_order s p intent cash qty active h9

-- No mode and no kill switch stands in the way of leaving a position: the decision on any action
-- but BUY and ADD is the same under every control state.
pub evaluate-control :
    (s : Settings) (p : TradeProposal) (intent : Option OrderIntent) (cash qty : Decimal)
    (control control' : ControlState) (known : List String) (now : ℕ)
    → is_opening p.action ≡ false
    → evaluate s p intent cash qty control known now
      ≡ evaluate s p intent cash qty control' known now
unfolding evaluate
evaluate-control s p intent cash qty control control' known now h = simp (h, and-false)
