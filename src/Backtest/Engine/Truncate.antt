-- ===== src/Backtest/Engine/Truncate.antt =====
-- Bars after a moment do not matter for what the replay did up to it.
use project_fifty.Strategies.Contracts.Allocation.{raise_if-eq-ok}
use project_fifty.Strategies.Contracts.{MarketBar, is_late}
use project_fifty.Prelude.{
  ℕ, String, ◌≡◌, ◌≤◌, refl, inl, inr, leb, arith, Option, some, List, [], ◌∷◌, ◌++◌, Bool-cases,
  leb→le,
}
use project_fifty.Prelude.Dict.{lookup, lookup_or}
use project_fifty.Prelude.Sort.{All}
use project_fifty.Outcome.{ok, >>-eq-ok, raise_if}
use project_fifty.Backtest.History.{History, until, history_until, bar_at, bars_at, check_order}

until-until :
    (time last : ℕ) (bars : List MarketBar)
    → time ≤ last
    → until time (until last bars) ≡ until time bars
unfolding until
until-until time last [] h = refl
until-until time last (bar ∷ bars) h = ground (arith, until-until time last bars h)

bar_at-until :
    (time last : ℕ) (bars : List MarketBar)
    → time ≤ last
    → bar_at time (until last bars) ≡ bar_at time bars
unfolding until bar_at
bar_at-until time last [] h = refl
bar_at-until time last (bar ∷ bars) h = ground (arith, bar_at-until time last bars h)

pub history_until-history_until :
    (time last : ℕ) (history : History)
    → time ≤ last
    → history_until time (history_until last history) ≡ history_until time history
unfolding history_until
history_until-history_until time last [] h = refl
history_until-history_until time last ((symbol, bars) ∷ history) h =
    cc (until-until time last bars h, history_until-history_until time last history h)

pub bars_at-history_until :
    (time last : ℕ) (history : History)
    → time ≤ last
    → bars_at time (history_until last history) ≡ bars_at time history
unfolding history_until bars_at
bars_at-history_until time last [] h = refl
bars_at-history_until time last ((symbol, bars) ∷ history) h =
    cc (bar_at-until time last bars h, bars_at-history_until time last history h)

pub lookup_or-history_until :
    (last : ℕ) (symbol : String) (history : History)
    → lookup_or [] symbol (history_until last history) ≡ until last (lookup_or [] symbol history)
unfolding history_until lookup_or lookup until
lookup_or-history_until last symbol [] = refl
lookup_or-history_until last symbol ((k, bars) ∷ history) =
    ground (arith, lookup_or-history_until last symbol history)

-- Bars in order that begin after a moment are all after it.
until-after :
    (last previous : ℕ) (bars : List MarketBar)
    → check_order (some previous) bars ≡ ok tt
    → last ≤ previous
    → until last bars ≡ []
unfolding until check_order
until-after last previous [] ordered h = refl
until-after last previous (bar ∷ bars) ordered h =
    let (first, rest) = >>-eq-ok (raise_if (leb bar.timestamp previous) _) _ ordered in
    let later = raise_if-eq-ok _ _ first in
    rw (until-after last bar.timestamp bars rest (ground arith)) (ground arith)

-- Bars in order are those up to a moment, then the others.
pub until-split :
    (last : ℕ) (previous : Option ℕ) (bars : List MarketBar)
    → check_order previous bars ≡ ok tt
    → (others : List MarketBar) × (bars ≡ until last bars ++ others)
unfolding until check_order
until-split last previous [] ordered = ([], refl)
until-split last previous (bar ∷ bars) ordered =
    let (first, rest) = >>-eq-ok (raise_if (is_late previous bar.timestamp) _) _ ordered in
    let (others, split) = until-split last (some bar.timestamp) bars rest in
    elim (Bool-cases (leb bar.timestamp last)) [
      | inl early ↦ (others, rw early (cc split))
      | inr late ↦
          (bar ∷ bars, rw (late, until-after last bar.timestamp bars rest (ground arith)) refl)
    ]

pub until-All :
    (last : ℕ) (bars : List MarketBar) → All (λ bar. bar.timestamp ≤ last) (until last bars)
unfolding until
until-All last [] = tt
until-All last (bar ∷ bars) = elim (Bool-cases (leb bar.timestamp last)) [
  | inl early ↦ rw early (leb→le _ _ early, until-All last bars)
  | inr late ↦ rw late (until-All last bars)
]
