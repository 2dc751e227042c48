-- ===== src/Broker/Simulated/Prices.antt =====
-- Orders and rates that are sound, and what a fill of such an order costs.
use project_fifty.Prelude.{◌≡◌, refl, Bool, true, false, if◌then◌else◌}
use project_fifty.Decimal.{Decimal, lt, add, sub, mul, zero_dec, one}
use project_fifty.Decimal.Sign.{
  IsNonneg, add-IsNonneg, mul-IsNonneg, sub-IsNonneg, lt→IsNonneg, lt-asym,
}
use project_fifty.Decimal.Rounded.{IsRounded, mul-IsRounded, mul_comm}
use project_fifty.Domain.{OrderIntent, is_buy}
use project_fifty.Broker.Simulated.{Simulated, Fill, price_fill}

-- A whole order: some quantity, with the digits that the context keeps, at a price that is not
-- negative
pub record IsOrder (i : OrderIntent) : Type 0 where
  pub sized : lt zero_dec i.quantity ≡ true
  pub rounded : IsRounded i.quantity
  pub priced : IsNonneg i.reference_price

-- Rates that are not negative, and a slippage of at most the whole price
pub record IsTariff (fee_rate slippage_rate : Decimal) : Type 0 where
  pub fee : IsNonneg fee_rate
  pub slippage : IsNonneg slippage_rate
  pub within_one : lt one slippage_rate ≡ false

-- What a fill costs, in the reconciler's terms
pub record IsPriced (i : OrderIntent) (f : Fill) : Type 0 where
  pub price : IsNonneg f.price
  pub notional : mul i.quantity f.price ≡ f.notional
  pub notional_high : IsNonneg f.notional
  pub fee : IsNonneg f.fee
  pub fee_rounded : IsRounded f.fee

multiplier-IsNonneg :
    (buys : Bool) (rate : Decimal)
    → IsNonneg rate
    → lt one rate ≡ false
    → IsNonneg (if buys then add one rate else sub one rate)
multiplier-IsNonneg true rate h k = add-IsNonneg one rate refl h
multiplier-IsNonneg false rate h k = sub-IsNonneg one rate k

pub price_fill-IsPriced :
    (i : OrderIntent) (b : Simulated)
    → IsOrder i
    → IsTariff b.fee_rate b.slippage_rate
    → IsPriced i (price_fill i b)
unfolding price_fill
price_fill-IsPriced i b o t =
    let multiplier = if is_buy i.side then add one b.slippage_rate else sub one b.slippage_rate in
    let price = mul i.reference_price multiplier in
    let high =
      mul-IsNonneg i.reference_price multiplier o.priced
        (multiplier-IsNonneg (is_buy i.side) b.slippage_rate t.slippage t.within_one) in
    let size = lt→IsNonneg i.quantity (lt-asym zero_dec i.quantity o.sized) in
    let whole = mul-IsNonneg price i.quantity high size in
    record {
      price = high;
      notional = mul_comm i.quantity price;
      notional_high = whole;
      fee = mul-IsNonneg (mul price i.quantity) b.fee_rate whole t.fee;
      fee_rounded = mul-IsRounded (mul price i.quantity) b.fee_rate whole t.fee;
    }
