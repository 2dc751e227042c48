-- ===== src/Backtest/History.antt =====
-- src/project_fifty/backtest/engine.py: the bars that a moment of the replay reads, and
-- `_validate_history`.
use project_fifty.Strategies.Contracts.{MarketBar, is_empty, is_late}
use project_fifty.Prelude.{
  ℕ, String, ◌==◌, leb, str_eq, Option, none, some, List, [], ◌∷◌, ◌||◌, if◌then◌else◌,
}
use project_fifty.Prelude.Dict.{Dict}
use project_fifty.Prelude.Seq.{from_end}
use project_fifty.Outcome.{Result, ok, ◌>>◌, raise_if, value_error}

abbrev pub History : Type 0
History = Dict (List MarketBar)

-- The bars up to a time
unfoldable pub until : ℕ → List MarketBar → List MarketBar
until time [] = []
until time (bar ∷ bars) =
    let rest = until time bars in if leb bar.timestamp time then bar ∷ rest else rest

-- The history up to a time, with every symbol
unfoldable pub history_until : ℕ → History → History
unfolding until
history_until time [] = []
history_until time ((symbol, bars) ∷ history) =
    (symbol, until time bars) ∷ history_until time history

abbrev pub add_found {ℓ} : {V : Type ℓ} → String → Option V → Dict V → Dict V
add_found symbol none found = found
add_found symbol (some v) found = (symbol, v) ∷ found

-- The last bar of every symbol that has one
unfoldable pub latest_bars : History → Dict MarketBar
unfolding from_end
latest_bars [] = []
latest_bars ((symbol, bars) ∷ history) = add_found symbol (from_end 1 bars) (latest_bars history)

-- `_bar_at`
unfoldable pub bar_at : ℕ → List MarketBar → Option MarketBar
bar_at time [] = none
bar_at time (bar ∷ bars) =
    let rest = bar_at time bars in if bar.timestamp == time then some bar else rest

unfoldable pub bars_at : ℕ → History → Dict MarketBar
unfolding bar_at
bars_at time [] = []
bars_at time ((symbol, bars) ∷ history) = add_found symbol (bar_at time bars) (bars_at time history)

abbrev pub dict_map {ℓ κ} : {V : Type ℓ} {W : Type κ} → (V → W) → Dict V → Dict W
dict_map f [] = []
dict_map f ((k, v) ∷ d) = (k, f v) ∷ dict_map f d

-- `_validate_history`
unfoldable pub check_order : Option ℕ → List MarketBar → Result (Unit {0})
check_order previous [] = ok tt
check_order previous (bar ∷ bars) =
    let rest = check_order (some bar.timestamp) bars in
    do
      raise_if (is_late previous bar.timestamp)
          (value_error "backtest history must be strictly increasing")
      rest

unfoldable pub check_symbols : History → Result (Unit {0})
unfolding check_order
check_symbols [] = ok tt
check_symbols ((symbol, bars) ∷ history) =
    let rest = check_symbols history in
    do
      raise_if (str_eq symbol "" || is_empty bars)
          (value_error "every backtest symbol must have history")
      check_order none bars
      rest

unfoldable pub check_history : History → Result (Unit {0})
unfolding check_symbols
check_history history = do
  raise_if (is_empty history) (value_error "history must not be empty")
  check_symbols history
