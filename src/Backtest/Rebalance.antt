-- ===== src/Backtest/Rebalance.antt =====
-- src/project_fifty/backtest/engine.py, `_rebalance` and what it calls: the trades at one bar's open.
pub mod Held
use project_fifty.Prelude.{
  ℕ, suc, String, Bool, true, false, not, ◌&&◌, ◌||◌, ltb, Option, none, some, List, [], ◌∷◌,
  if◌then◌else◌,
}
use project_fifty.Prelude.Int.{pos}
use project_fifty.Prelude.Dict.{Dict, lookup, lookup_or, insert, erase}
use project_fifty.Prelude.Sort.{sorted_keys}
use project_fifty.Outcome.{Result, ok, err, value_error, runtime_error, raise_if, ◌>>=◌, ◌>>◌}
use project_fifty.Decimal.{Decimal, lt, le, add, sub, mul, div, min, neg, zero_dec, one}
use project_fifty.Domain.{Position, PortfolioState, new_position, new_portfolio}
use project_fifty.Strategies.Rebalance.{
  RebalanceInstruction, RebalancePlan, for_symbol, quantity_of, keys,
}

pub record BacktestConfig : Type 0 where
  pub starting_cash : Decimal
  pub currency : String
  pub warmup_bars : ℕ
  pub fee_rate : Decimal
  pub slippage_rate : Decimal

abbrev is_rate : Decimal → Bool
is_rate value = not (lt value zero_dec || le one value)

-- `BacktestConfig(...)`: the fields, if `__post_init__` passes them.
unfoldable pub validate_backtest : BacktestConfig → Result BacktestConfig
validate_backtest c = do
  raise_if (le c.starting_cash zero_dec) (value_error "starting_cash must be finite and positive")
  raise_if (ltb c.warmup_bars 2) (value_error "warmup_bars must be >= 2")
  raise_if (not (is_rate c.fee_rate && is_rate c.slippage_rate))
      (value_error "cost rates must be finite and in [0, 1)")
  ok c

-- `_instruction_allows`
unfoldable pub instruction_allows : String → Option RebalancePlan → Bool
unfolding for_symbol
instruction_allows symbol none = true
instruction_allows symbol (some plan) = elim (for_symbol symbol plan) [
  | none ↦ false
  | some instruction ↦ instruction.executes
]

-- `_CASH_EPSILON`
abbrev pub cash_epsilon : Decimal
cash_epsilon = record { coef = pos 1; scale = 12 }

-- `_clamp_cash`
unfoldable pub clamp_cash : Decimal → Result Decimal
clamp_cash value =
    if le zero_dec value
    then ok value
    else if le (neg cash_epsilon) value
    then ok zero_dec
    else err (runtime_error "backtest attempted to spend materially more cash than available")

-- The net asset value: the loop of `_portfolio_state`
unfoldable pub mark_nav : Dict Decimal → Decimal → Dict Position → Decimal
unfolding lookup_or
mark_nav prices nav [] = nav
mark_nav prices nav ((symbol, position) ∷ positions) =
    mark_nav prices
      (add nav (mul position.quantity (lookup_or position.average_price symbol prices))) positions

-- `_portfolio_state`
unfoldable pub portfolio_state :
    BacktestConfig → Decimal → Dict Position → Dict Decimal → Result PortfolioState
unfolding mark_nav new_portfolio
portfolio_state config cash positions prices =
    new_portfolio cash positions (mark_nav prices cash positions) config.currency

-- What `_rebalance` works on
pub record Trades : Type 0 where
  pub cash : Decimal
  pub positions : Dict Position
  pub turnover : Decimal
  pub costs : Decimal
  pub count : ℕ

-- The position that a sale leaves; one with nothing in it is removed.
unfoldable pub keep_remainder : String → Position → Decimal → Dict Position → Result (Dict Position)
unfolding new_position erase insert
keep_remainder symbol position remainder positions =
    if le remainder zero_dec
    then ok (erase symbol positions)
    else new_position symbol remainder position.average_price >>= λ p.
        ok (insert symbol p positions)

-- A sale that brings the position down to its target value
unfoldable pub sell_excess :
    BacktestConfig → String → Decimal → Position → Decimal → Decimal → Trades → Result Trades
unfolding keep_remainder
sell_excess config symbol price position target_value current_value t = do
  excess ← div (sub current_value target_value) price
  let quantity = min excess position.quantity
  let fill_price = mul price (sub one config.slippage_rate)
  let notional = mul quantity fill_price
  let fee = mul notional config.fee_rate
  positions ← keep_remainder symbol position (sub position.quantity quantity) t.positions
  ok (record {
    cash = add t.cash (sub notional fee);
    positions = positions;
    turnover = add t.turnover notional;
    costs = add t.costs (add fee (mul quantity (sub price fill_price)));
    count = suc t.count;
  })

-- From what the lookups of the price and the position give
unfoldable pub sell_at :
    BacktestConfig
    → Decimal
    → Dict Decimal
    → String
    → Option Decimal
    → Option Position
    → Trades
    → Result Trades
unfolding sell_excess lookup_or
sell_at config nav weights symbol (some price) (some position) t =
    let target_value = mul nav (lookup_or zero_dec symbol weights) in
    let current_value = mul position.quantity price in
    if le current_value target_value
    then ok t
    else sell_excess config symbol price position target_value current_value t
sell_at config nav weights symbol _ _ t = ok t

-- The first loop of `_rebalance`
unfoldable pub sell_symbols :
    BacktestConfig
    → Decimal
    → Dict Decimal
    → Dict Decimal
    → Option RebalancePlan
    → List String
    → Trades
    → Result Trades
unfolding sell_at instruction_allows lookup
sell_symbols config nav weights prices plan [] t = ok t
sell_symbols config nav weights prices plan (symbol ∷ symbols) t =
    (if instruction_allows symbol plan
      then sell_at config nav weights symbol (lookup symbol prices) (lookup symbol t.positions) t
      else ok t)
    >>= sell_symbols config nav weights prices plan symbols

-- The position that a purchase makes or adds to
unfoldable pub enlarge :
    String → Option Position → Decimal → Decimal → Dict Position → Result (Dict Position)
unfolding new_position insert
enlarge symbol none quantity fill_price positions = do
  position ← new_position symbol quantity fill_price
  ok (insert symbol position positions)
enlarge symbol (some old) quantity fill_price positions = do
  let new_quantity = add old.quantity quantity
  average_price ←
      div (add (mul old.quantity old.average_price) (mul quantity fill_price)) new_quantity
  position ← new_position symbol new_quantity average_price
  ok (insert symbol position positions)

-- What the cash pays for
unfoldable pub affordable : Decimal → Decimal → Result Decimal
affordable cash denominator = if lt zero_dec denominator then div cash denominator else ok zero_dec

-- A purchase of a quantity above zero
unfoldable pub fill_purchase :
    BacktestConfig → String → Decimal → Option Position → Decimal → Decimal → Trades → Result Trades
unfolding clamp_cash enlarge
fill_purchase config symbol price position quantity fill_price t = do
  let notional = mul quantity fill_price
  let fee = mul notional config.fee_rate
  cash ← clamp_cash (sub t.cash (add notional fee))
  positions ← enlarge symbol position quantity fill_price t.positions
  ok (record {
    cash = cash;
    positions = positions;
    turnover = add t.turnover notional;
    costs = add t.costs (add fee (mul quantity (sub fill_price price)));
    count = suc t.count;
  })

unfoldable pub buy_quantity :
    BacktestConfig → String → Decimal → Option Position → Decimal → Decimal → Trades → Result Trades
unfolding fill_purchase
buy_quantity config symbol price position quantity fill_price t =
    if le quantity zero_dec
    then ok t
    else fill_purchase config symbol price position quantity fill_price t

-- A purchase that brings the position up to its target value, as far as the cash goes
unfoldable pub buy_missing :
    BacktestConfig → String → Decimal → Option Position → Decimal → Decimal → Trades → Result Trades
unfolding affordable buy_quantity
buy_missing config symbol price position target_value current_value t = do
  let fill_price = mul price (add one config.slippage_rate)
  desired ← div (sub target_value current_value) fill_price
  if le desired zero_dec
      then ok t
      else affordable t.cash (mul fill_price (add one config.fee_rate)) >>= λ most.
          buy_quantity config symbol price position (min desired most) fill_price t

-- From what the lookup of the price gives
unfoldable pub buy_at :
    BacktestConfig → Decimal → Decimal → String → Option Decimal → Trades → Result Trades
unfolding buy_missing lookup
buy_at config nav weight symbol none t = ok t
buy_at config nav weight symbol (some price) t =
    let position = lookup symbol t.positions in
    let current_value = mul (quantity_of position) price in
    let target_value = mul nav weight in
    if le weight zero_dec || le target_value current_value
    then ok t
    else buy_missing config symbol price position target_value current_value t

-- The second loop of `_rebalance`
unfoldable pub buy_symbols :
    BacktestConfig
    → Decimal
    → Dict Decimal
    → Dict Decimal
    → Option RebalancePlan
    → List String
    → Trades
    → Result Trades
unfolding buy_at instruction_allows lookup lookup_or
buy_symbols config nav weights prices plan [] t = ok t
buy_symbols config nav weights prices plan (symbol ∷ symbols) t =
    (if instruction_allows symbol plan
      then buy_at config nav (lookup_or zero_dec symbol weights) symbol (lookup symbol prices) t
      else ok t)
    >>= buy_symbols config nav weights prices plan symbols

-- `_rebalance`
unfoldable pub rebalance :
    BacktestConfig
    → Decimal
    → Dict Position
    → Decimal
    → Dict Decimal
    → Dict Decimal
    → Option RebalancePlan
    → Result Trades
unfolding sell_symbols buy_symbols sorted_keys
rebalance config cash positions nav weights prices plan =
    let symbols = sorted_keys (keys positions) (keys weights) in
    sell_symbols config nav weights prices plan symbols (record {
      cash = cash;
      positions = positions;
      turnover = zero_dec;
      costs = zero_dec;
      count = 0;
    })
    >>= buy_symbols config nav weights prices plan symbols
