-- ===== src/Strategies/Rebalance/Plan.antt =====
-- What a plan does with each symbol.
use project_fifty.Prelude.{
  refl, Bool-cases, inl, inr, map, String, ◌≡◌, subst, ◌⊎◌, Bool, true, false, arith, List, [], ◌∷◌,
  some,
}
use project_fifty.Prelude.Dict.{lookup, lookup_or}
use project_fifty.Prelude.Sort.{All, sorted_keys}
use project_fifty.Outcome.{ok, or_raise, >>=-eq-ok, >>-eq-ok, ok_injective, or_raise-some}
use project_fifty.Decimal.{Decimal, lt, le, eq, mul, max, abs, zero_dec, sub}
use project_fifty.Decimal.Sign.{lt-asym}
use project_fifty.Strategies.Contracts.{StrategyContext, TargetPortfolio}
use project_fifty.Strategies.Rebalance.{
  EconomicRebalanceConfig, RebalanceInstruction, RebalancePlan, quantity_of, weight_of, decide,
  plan_symbol, plan_symbols, validate_match, keys, plan,
}

-- A change is traded where it reaches the threshold, or closes a position whose target is zero and
-- exits are forced; nothing else is, and no change is no trade.
pub record IsDecided (config : EconomicRebalanceConfig) (threshold quantity : Decimal)
    (target delta : Decimal) (executes : Bool) : Type 0 where
  pub made :
      executes ≡ true
      → (eq delta zero_dec ≡ false)
        × ((le threshold (abs delta) ≡ true)
            ⊎ ((config.force_full_exits ≡ true)
                × (lt zero_dec quantity ≡ true)
                × (eq target zero_dec ≡ true)))
  pub left_out : executes ≡ false → (eq delta zero_dec ≡ true) ⊎ (le threshold (abs delta) ≡ false)
  pub exits :
      config.force_full_exits ≡ true
      → lt zero_dec quantity ≡ true
      → eq target zero_dec ≡ true
      → eq delta zero_dec ≡ false
      → executes ≡ true

decide-IsDecided :
    (config : EconomicRebalanceConfig) (threshold quantity target delta : Decimal)
    → IsDecided config threshold quantity target delta
        (decide config threshold quantity target delta).0
unfolding decide
decide-IsDecided config threshold quantity target delta = record {
  made = λ h. ground arith;
  left_out = λ h. ground arith;
  exits = λ f q t d. ground arith;
}

lt_irrefl : (a : Decimal) → lt a a ≡ false
unfolding lt
lt_irrefl a = ground arith

module _ (config : EconomicRebalanceConfig) (threshold : Decimal) (target : TargetPortfolio)
    (context : StrategyContext) where
  -- The change is what the net asset value times the target's weight is more than the position at its
  -- reference price, and the instruction is decided by it.
  abbrev pub IsInstruction : RebalanceInstruction → Type 0
  IsInstruction item =
      let quantity = quantity_of (lookup item.symbol context.portfolio.positions) in
      (item.target_weight ≡ lookup_or zero_dec item.symbol target.weights)
      × ((price : Decimal) × (lookup item.symbol context.reference_prices ≡ some price)
          × (item.delta_notional
              ≡ sub (mul context.portfolio.nav item.target_weight) (mul quantity price)))
      × IsDecided config threshold quantity item.target_weight item.delta_notional item.executes

  plan_symbol-IsInstruction :
      (symbol : String) (item : RebalanceInstruction)
      → plan_symbol config threshold target context symbol ≡ ok item
      → (symbol ≡ item.symbol) × IsInstruction item
  unfolding plan_symbol
  plan_symbol-IsInstruction symbol item h =
      let (price, priced, h1) =
        >>=-eq-ok (or_raise (lookup symbol context.reference_prices) _) _ h in
      let quantity = quantity_of (lookup symbol context.portfolio.positions) in
      let (weight, _, h2) = >>=-eq-ok (weight_of (mul quantity price) context.portfolio.nav) _ h1 in
      subst (λ (x : RebalanceInstruction). (symbol ≡ x.symbol) × IsInstruction x)
        (ok_injective _ _ h2)
        (
          refl,
          (
            refl,
            (price, or_raise-some (lookup symbol context.reference_prices) _ price priced, refl),
            decide-IsDecided config threshold quantity (lookup_or zero_dec symbol target.weights) _,
          ),
        )

  plan_symbols-IsInstruction :
      (symbols : List String) (items : List RebalanceInstruction)
      → plan_symbols config threshold target context symbols ≡ ok items
      → (symbols ≡ map (λ item. item.symbol) items) × All IsInstruction items
  unfolding plan_symbols
  plan_symbols-IsInstruction [] items h =
      subst (λ x. ([] ≡ map (λ item. item.symbol) x) × All IsInstruction x) (ok_injective _ _ h)
        (refl, tt)
  plan_symbols-IsInstruction (symbol ∷ symbols) items h =
      let (item, first, h1) = >>=-eq-ok (plan_symbol config threshold target context symbol) _ h in
      let (rest, later, h2) =
        >>=-eq-ok (plan_symbols config threshold target context symbols) _ h1 in
      let (same, one) = plan_symbol-IsInstruction symbol item first in
      let (others, all) = plan_symbols-IsInstruction symbols rest later in
      subst (λ x. (symbol ∷ symbols ≡ map (λ item. item.symbol) x) × All IsInstruction x)
        (ok_injective _ _ h2) (λ j. same j ∷ others j, (one, all))

-- The larger of the least amount and the least share of the net asset value
abbrev pub IsThreshold : EconomicRebalanceConfig → StrategyContext → Decimal → Type 0
IsThreshold config context threshold =
    let share = mul context.portfolio.nav config.minimum_trade_fraction_of_nav in
    (lt threshold config.minimum_trade_notional ≡ false)
    × (lt threshold share ≡ false)
    × ((threshold ≡ config.minimum_trade_notional) ⊎ (threshold ≡ share))

max-IsThreshold :
    (config : EconomicRebalanceConfig) (context : StrategyContext)
    → IsThreshold config context (
        max config.minimum_trade_notional
          (mul context.portfolio.nav config.minimum_trade_fraction_of_nav))
unfolding max
max-IsThreshold config context =
    let least = config.minimum_trade_notional in
    let share = mul context.portfolio.nav config.minimum_trade_fraction_of_nav in
    elim (Bool-cases (lt least share)) [
      | inl above ↦ rw above (lt-asym least share above, lt_irrefl share, inr refl)
      | inr below ↦ rw below (lt_irrefl least, below, inl refl)
    ]

-- A plan has an instruction for each symbol that is held or has a target's weight, in the order of
-- the symbols. Its threshold is the larger of the least amount and the least share of the net asset
-- value. The change of an instruction is the net asset value times the target's weight less the
-- position at its reference price; it is traded only where it is not zero and reaches the threshold
-- or closes a position where full exits are forced; what is left out is no change or below the
-- threshold; and a full exit is never left out where exits are forced.
pub plan-IsInstruction :
    (config : EconomicRebalanceConfig) (target : TargetPortfolio) (context : StrategyContext)
    (p : RebalancePlan)
    → plan config target context ≡ ok p
    → IsThreshold config context p.threshold_notional
      × (sorted_keys (keys context.portfolio.positions) (keys target.weights)
          ≡ map (λ item. item.symbol) p.instructions)
      × All (IsInstruction config p.threshold_notional target context) p.instructions
unfolding plan
plan-IsInstruction config target context p h =
    let (_, h1) = >>-eq-ok (validate_match target context) _ h in
    let threshold =
      max config.minimum_trade_notional
        (mul context.portfolio.nav config.minimum_trade_fraction_of_nav) in
    let (items, planned, h2) =
      >>=-eq-ok
        (plan_symbols config threshold target context
          (sorted_keys (keys context.portfolio.positions) (keys target.weights)))
        _ h1 in
    let all =
      plan_symbols-IsInstruction config threshold target context
        (sorted_keys (keys context.portfolio.positions) (keys target.weights)) items planned in
    subst
      (λ (x : RebalancePlan).
        IsThreshold config context x.threshold_notional
        × (sorted_keys (keys context.portfolio.positions) (keys target.weights)
            ≡ map (λ item. item.symbol) x.instructions)
        × All (IsInstruction config x.threshold_notional target context) x.instructions)
      (ok_injective _ _ h2) (max-IsThreshold config context, all.0, all.1)
