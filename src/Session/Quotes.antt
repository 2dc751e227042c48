-- ===== src/Session/Quotes.antt =====
-- src/project_fifty/market_data/alpaca.py, `MarketQuote`, and the tests that the session's runner
-- (src/project_fifty/session/runner.py) makes on the quotes of a cycle.
use project_fifty.Prelude.{
  ℕ, String, ◌+◌, false, not, ltb, str_eq, Option, none, some, List, [], ◌∷◌, Bool, ◌||◌, ◌&&◌,
  if◌then◌else◌, ◌*◌,
}
use project_fifty.Prelude.Dict.{Dict, has_key}
use project_fifty.Outcome.{Result, ok, ◌>>=◌, ◌>>◌, raise_if, value_error}
use project_fifty.Decimal.{Decimal, lt, le, eq, add, div, zero_dec}
use project_fifty.Prelude.Int.{pos}
use project_fifty.Settings.{Settings}

pub record MarketQuote : Type 0 where
  pub symbol : String
  pub bid : Decimal
  pub ask : Decimal
  pub timestamp : ℕ

-- `MarketQuote(...)`: the fields, if `__post_init__` passes them.
unfoldable pub validate_quote : MarketQuote → Result MarketQuote
validate_quote q = do
  raise_if (str_eq q.symbol "") (value_error "quote symbol is required")
  raise_if (lt q.bid zero_dec || lt q.ask zero_dec)
      (value_error "quote prices must be non-negative")
  raise_if (eq q.bid zero_dec && eq q.ask zero_dec)
      (value_error "quote must contain at least one positive side")
  ok q

-- `is_actionable`
unfoldable pub is_actionable : MarketQuote → Bool
is_actionable q = (lt zero_dec q.bid && lt zero_dec q.ask) && le q.bid q.ask

abbrev two : Decimal
two = record { coef = pos 2; scale = 0 }

-- `midpoint`
unfoldable pub midpoint : MarketQuote → Result Decimal
midpoint q =
    if eq q.bid zero_dec
    then ok q.ask
    else if eq q.ask zero_dec
    then ok q.bid
    else div (add q.bid q.ask) two

-- The midpoints of all quotes
unfoldable pub midpoints : Dict MarketQuote → Result (Dict Decimal)
unfolding midpoint
midpoints [] = ok []
midpoints ((symbol, q) ∷ quotes) =
    let rest = midpoints quotes in
    do price ← midpoint q; prices ← rest; ok ((symbol, price) ∷ prices)

abbrev pub any_quote : (MarketQuote → Bool) → Dict MarketQuote → Bool
any_quote test [] = false
any_quote test ((_, q) ∷ quotes) = test q || any_quote test quotes

-- A symbol without a quote
abbrev pub lacks_quote : List String → Dict MarketQuote → Bool
lacks_quote [] quotes = false
lacks_quote (symbol ∷ symbols) quotes = not (has_key symbol quotes) || lacks_quote symbols quotes

-- `max(current, *(quote.timestamp for quote in quotes.values()))`
unfoldable pub latest_time : ℕ → Dict MarketQuote → ℕ
latest_time time [] = time
latest_time time ((_, q) ∷ quotes) =
    latest_time (if ltb time q.timestamp then q.timestamp else time) quotes

-- The reason to skip the cycle, in the order of the checks
unfoldable pub quote_problem : Settings → ℕ → ℕ → List String → Dict MarketQuote → Option String
unfolding is_actionable latest_time has_key
quote_problem s tolerance now symbols quotes =
    if lacks_quote symbols quotes
    then some "missing_quote"
    else if any_quote (λ q. ltb (now + tolerance * 1000000) q.timestamp) quotes
    then some "future_quote"
    else if any_quote
        (λ q. ltb (q.timestamp + s.max_stale_seconds * 1000000) (latest_time now quotes)) quotes
    then some "stale_quote"
    else if any_quote (λ q. not (is_actionable q)) quotes
    then some "non_actionable_quote"
    else none
