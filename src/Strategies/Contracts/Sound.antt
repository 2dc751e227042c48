-- ===== src/Strategies/Contracts/Sound.antt =====
-- What a strategy may rely on: a context that was built holds no bar from the future.
use project_fifty.Prelude.{
  ℕ, ◌≤◌, ◌≡◌, false, ltb, not, ◌&&◌, str_eq, arith, Option, none, some, List, [], ◌∷◌,
}
use project_fifty.Prelude.Dict.{Dict, values}
use project_fifty.Prelude.Sort.{All}
use project_fifty.Outcome.{Error, ok, raise_if, >>-eq-ok}
use project_fifty.Strategies.Contracts.{
  MarketBar, StrategyContext, validate_bars, validate_history, validate_context, is_late, is_empty,
  validate_reference_prices, covers, validate_timestamps,
}

-- The bars are no later than `as_of`, each is after the one before it, and the first is after
-- `previous`.
abbrev pub IsPast : ℕ → Option ℕ → List MarketBar → Type 0
IsPast as_of previous [] = Unit {0}
IsPast as_of previous (bar ∷ bars) =
    (bar.timestamp ≤ as_of)
    × (is_late previous bar.timestamp ≡ false)
    × IsPast as_of (some bar.timestamp) bars

not_raised :
    (as_of timestamp : ℕ) (e : Error) → raise_if (ltb as_of timestamp) e ≡ ok tt → timestamp ≤ as_of
not_raised as_of timestamp e h = ground arith

validate_bars-IsPast :
    (as_of : ℕ) (previous : Option ℕ) (bars : List MarketBar)
    → validate_bars as_of previous bars ≡ ok tt
    → IsPast as_of previous bars
unfolding validate_bars
validate_bars-IsPast as_of previous [] h = tt
validate_bars-IsPast as_of previous (bar ∷ bars) h =
    let (now, h1) = >>-eq-ok (raise_if (ltb as_of bar.timestamp) _) _ h in
    let (order, h2) = >>-eq-ok (raise_if (is_late previous bar.timestamp) _) _ h1 in
    (
      not_raised as_of bar.timestamp _ now,
      ground arith,
      validate_bars-IsPast as_of (some bar.timestamp) bars h2,
    )

validate_history-IsPast :
    (as_of : ℕ) (history : Dict (List MarketBar))
    → validate_history as_of history ≡ ok tt
    → All (λ entry. IsPast as_of none entry.1) history
unfolding validate_history
validate_history-IsPast as_of [] h = tt
validate_history-IsPast as_of ((symbol, bars) ∷ history) h =
    let (first, rest) = >>-eq-ok (validate_bars as_of none bars) _ h in
    (validate_bars-IsPast as_of none bars first, validate_history-IsPast as_of history rest)

-- A context that the validators accept has no look-ahead: the bars of every symbol are no later
-- than the context's time and strictly increase.
pub validate_context-IsPast :
    (c c' : StrategyContext)
    → validate_context c ≡ ok c'
    → All (λ entry. IsPast c.as_of none entry.1) c.history
unfolding validate_context
validate_context-IsPast c c' h =
    let (_, h1) = >>-eq-ok (raise_if (is_empty c.reference_prices) _) _ h in
    let (_, h2) = >>-eq-ok (validate_reference_prices c.reference_prices) _ h1 in
    let (_, h3) = >>-eq-ok (raise_if (not (str_eq c.currency c.portfolio.currency)) _) _ h2 in
    let (_, h4) =
      >>-eq-ok
        (raise_if
          (not (
            covers c.reference_prices c.reference_price_timestamps
            && covers c.reference_price_timestamps c.reference_prices))
          _)
        _ h3 in
    let (_, h5) =
      >>-eq-ok (validate_timestamps c.as_of (values c.reference_price_timestamps)) _ h4 in
    let (past, _) = >>-eq-ok (validate_history c.as_of c.history) _ h5 in
    validate_history-IsPast c.as_of c.history past
