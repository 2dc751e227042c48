-- ===== src/Backtest/Rebalance/Held.antt =====
-- The trades of a bar leave only positions that hold something or nothing, never a short one.
use project_fifty.Strategies.Rebalance.{RebalancePlan, quantity_of, keys}
use project_fifty.Backtest.Rebalance.{
  enlarge, BacktestConfig, keep_remainder, Trades, sell_excess, sell_at, fill_purchase,
  buy_quantity, buy_missing, buy_at, clamp_cash, buy_symbols, rebalance, sell_symbols, affordable,
  instruction_allows,
}
use project_fifty.Prelude.{
  String, ◌≡◌, subst, inl, inr, arith, Option, none, some, List, [], ◌∷◌, Bool-cases, ◌||◌,
  if◌then◌else◌,
}
use project_fifty.Prelude.Dict.{Dict, lookup, lookup_or, insert, erase}
use project_fifty.Prelude.Sort.{sorted_keys}
use project_fifty.Outcome.{ok, >>=-eq-ok, ok_injective}
use project_fifty.Decimal.{Decimal, le, add, sub, mul, div, min, zero_dec, one}
use project_fifty.Domain.{Position, new_position}
use project_fifty.Reconcile.LongOnly.{AreHeld, new_position-IsHeld, insert-AreHeld, erase-AreHeld}

-- The positions of the trades so far are long.
abbrev pub IsLong : Trades → Type 0
IsLong t = AreHeld t.positions

keep_remainder-AreHeld :
    (symbol : String) (position : Position) (remainder : Decimal)
    (positions positions' : Dict Position)
    → AreHeld positions
    → keep_remainder symbol position remainder positions ≡ ok positions'
    → AreHeld positions'
unfolding keep_remainder
keep_remainder-AreHeld symbol position remainder positions positions' held h =
    elim (Bool-cases (le remainder zero_dec)) [
      | inl gone ↦
          subst AreHeld (ok_injective (erase symbol positions) positions' (ground arith))
            (erase-AreHeld symbol positions held)
      | inr some_left ↦
          let (p, made, h1) =
            >>=-eq-ok (new_position symbol remainder position.average_price)
              (λ p. ok (insert symbol p positions)) (ground arith) in
          subst AreHeld (ok_injective (insert symbol p positions) positions' h1) (
            insert-AreHeld symbol p positions
              (new_position-IsHeld symbol remainder position.average_price p made) held)
    ]

enlarge-AreHeld :
    (symbol : String) (position : Option Position) (quantity fill_price : Decimal)
    (positions positions' : Dict Position)
    → AreHeld positions
    → enlarge symbol position quantity fill_price positions ≡ ok positions'
    → AreHeld positions'
unfolding enlarge
enlarge-AreHeld symbol none quantity fill_price positions positions' held h =
    let (p, made, h1) = >>=-eq-ok (new_position symbol quantity fill_price) _ h in
    subst AreHeld (ok_injective _ _ h1) (
      insert-AreHeld symbol p positions (new_position-IsHeld symbol quantity fill_price p made)
        held)
enlarge-AreHeld symbol (some old) quantity fill_price positions positions' held h =
    let new_quantity = add old.quantity quantity in
    let (price, _, h1) =
      >>=-eq-ok
        (div (add (mul old.quantity old.average_price) (mul quantity fill_price)) new_quantity) _
        h in
    let (p, made, h2) = >>=-eq-ok (new_position symbol new_quantity price) _ h1 in
    subst AreHeld (ok_injective _ _ h2) (
      insert-AreHeld symbol p positions (new_position-IsHeld symbol new_quantity price p made) held)

module _ (config : BacktestConfig) where
  sell_excess-IsLong :
      (symbol : String) (price : Decimal) (position : Position) (target current : Decimal)
      (t t' : Trades)
      → IsLong t
      → sell_excess config symbol price position target current t ≡ ok t'
      → IsLong t'
  unfolding sell_excess
  sell_excess-IsLong symbol price position target current t t' held h =
      let (excess, _, h1) = >>=-eq-ok (div (sub current target) price) _ h in
      let quantity = min excess position.quantity in
      let (positions, kept, h2) =
        >>=-eq-ok (keep_remainder symbol position (sub position.quantity quantity) t.positions) _
          h1 in
      subst IsLong (ok_injective _ _ h2) (
        keep_remainder-AreHeld symbol position (sub position.quantity quantity) t.positions
          positions held kept)

  sell_at-IsLong :
      (nav : Decimal) (weights : Dict Decimal) (symbol : String) (price : Option Decimal)
      (position : Option Position) (t t' : Trades)
      → IsLong t
      → sell_at config nav weights symbol price position t ≡ ok t'
      → IsLong t'
  unfolding sell_at
  sell_at-IsLong nav weights symbol none none t t' held h = subst IsLong (ok_injective _ _ h) held
  sell_at-IsLong nav weights symbol none (some p) t t' held h =
      subst IsLong (ok_injective _ _ h) held
  sell_at-IsLong nav weights symbol (some price) none t t' held h =
      subst IsLong (ok_injective _ _ h) held
  sell_at-IsLong nav weights symbol (some price) (some position) t t' held h =
      let target = mul nav (lookup_or zero_dec symbol weights) in
      let current = mul position.quantity price in
      elim (Bool-cases (le current target)) [
        | inl low ↦ subst IsLong (ok_injective t t' (ground arith)) held
        | inr high ↦
            sell_excess-IsLong symbol price position target current t t' held (ground arith)
      ]

  fill_purchase-IsLong :
      (symbol : String) (price : Decimal) (position : Option Position)
      (quantity fill_price : Decimal) (t t' : Trades)
      → IsLong t
      → fill_purchase config symbol price position quantity fill_price t ≡ ok t'
      → IsLong t'
  unfolding fill_purchase
  fill_purchase-IsLong symbol price position quantity fill_price t t' held h =
      let notional = mul quantity fill_price in
      let (cash, paid, h1) =
        >>=-eq-ok (clamp_cash (sub t.cash (add notional (mul notional config.fee_rate)))) _ h in
      let (positions, made, h2) =
        >>=-eq-ok (enlarge symbol position quantity fill_price t.positions) _ h1 in
      subst IsLong (ok_injective _ _ h2)
        (enlarge-AreHeld symbol position quantity fill_price t.positions positions held made)

  buy_quantity-IsLong :
      (symbol : String) (price : Decimal) (position : Option Position)
      (quantity fill_price : Decimal) (t t' : Trades)
      → IsLong t
      → buy_quantity config symbol price position quantity fill_price t ≡ ok t'
      → IsLong t'
  unfolding buy_quantity
  buy_quantity-IsLong symbol price position quantity fill_price t t' held h =
      elim (Bool-cases (le quantity zero_dec)) [
        | inl empty ↦ subst IsLong (ok_injective t t' (ground arith)) held
        | inr full ↦
            fill_purchase-IsLong symbol price position quantity fill_price t t' held (ground arith)
      ]

  buy_missing-IsLong :
      (symbol : String) (price : Decimal) (position : Option Position) (target current : Decimal)
      (t t' : Trades)
      → IsLong t
      → buy_missing config symbol price position target current t ≡ ok t'
      → IsLong t'
  unfolding buy_missing
  buy_missing-IsLong symbol price position target current t t' held h =
      let fill_price = mul price (add one config.slippage_rate) in
      let (desired, _, h1) = >>=-eq-ok (div (sub target current) fill_price) _ h in
      elim (Bool-cases (le desired zero_dec)) [
        | inl empty ↦ subst IsLong (ok_injective t t' (ground arith)) held
        | inr full ↦
            let (most, _, h2) =
              >>=-eq-ok (affordable t.cash (mul fill_price (add one config.fee_rate)))
                (λ most. buy_quantity config symbol price position (min desired most) fill_price t)
                (ground arith) in
            buy_quantity-IsLong symbol price position (min desired most) fill_price t t' held h2
      ]

  buy_at-IsLong :
      (nav weight : Decimal) (symbol : String) (price : Option Decimal) (t t' : Trades)
      → IsLong t
      → buy_at config nav weight symbol price t ≡ ok t'
      → IsLong t'
  unfolding buy_at
  buy_at-IsLong nav weight symbol none t t' held h = subst IsLong (ok_injective _ _ h) held
  buy_at-IsLong nav weight symbol (some price) t t' held h =
      let position = lookup symbol t.positions in
      let current = mul (quantity_of position) price in
      elim (Bool-cases (le weight zero_dec || le (mul nav weight) current)) [
        | inl full ↦ subst IsLong (ok_injective t t' (ground arith)) held
        | inr short ↦
            buy_missing-IsLong symbol price position (mul nav weight) current t t' held
              (ground arith)
      ]

  module _ (nav : Decimal) (weights prices : Dict Decimal) (plan : Option RebalancePlan) where
    sell_symbols-IsLong :
        (symbols : List String) (t t' : Trades)
        → IsLong t
        → sell_symbols config nav weights prices plan symbols t ≡ ok t'
        → IsLong t'
    unfolding sell_symbols
    sell_symbols-IsLong [] t t' held h = subst IsLong (ok_injective _ _ h) held
    sell_symbols-IsLong (symbol ∷ symbols) t t' held h =
        let sold =
          sell_at config nav weights symbol (lookup symbol prices) (lookup symbol t.positions) t in
        let (t1, first, rest) =
          >>=-eq-ok (if instruction_allows symbol plan then sold else ok t) _ h in
        sell_symbols-IsLong symbols t1 t'
          (elim (Bool-cases (instruction_allows symbol plan)) [
            | inl allowed ↦
                sell_at-IsLong nav weights symbol (lookup symbol prices) (lookup symbol t.positions)
                  t t1 held (ground arith)
            | inr barred ↦ subst IsLong (ok_injective t t1 (ground arith)) held
          ])
          rest

    buy_symbols-IsLong :
        (symbols : List String) (t t' : Trades)
        → IsLong t
        → buy_symbols config nav weights prices plan symbols t ≡ ok t'
        → IsLong t'
    unfolding buy_symbols
    buy_symbols-IsLong [] t t' held h = subst IsLong (ok_injective _ _ h) held
    buy_symbols-IsLong (symbol ∷ symbols) t t' held h =
        let weight = lookup_or zero_dec symbol weights in
        let bought = buy_at config nav weight symbol (lookup symbol prices) t in
        let (t1, first, rest) =
          >>=-eq-ok (if instruction_allows symbol plan then bought else ok t) _ h in
        buy_symbols-IsLong symbols t1 t'
          (elim (Bool-cases (instruction_allows symbol plan)) [
            | inl allowed ↦
                buy_at-IsLong nav weight symbol (lookup symbol prices) t t1 held (ground arith)
            | inr barred ↦ subst IsLong (ok_injective t t1 (ground arith)) held
          ])
          rest

    -- The trades of a bar keep every position long.
    pub rebalance-AreHeld :
        (cash : Decimal) (positions : Dict Position) (t : Trades)
        → AreHeld positions
        → rebalance config cash positions nav weights prices plan ≡ ok t
        → AreHeld t.positions
    unfolding rebalance
    rebalance-AreHeld cash positions t held h =
        let symbols = sorted_keys (keys positions) (keys weights) in
        let (t1, sold, bought) =
          >>=-eq-ok (sell_symbols config nav weights prices plan symbols _)
            (buy_symbols config nav weights prices plan symbols) h in
        buy_symbols-IsLong symbols t1 t (sell_symbols-IsLong symbols _ t1 held sold) bought
