-- ===== src/Strategies/LowFrequency/Candidates.antt =====
-- The candidates of the low-frequency strategy: every one that rises is listed, with its momentum.
use project_fifty.Prelude.{
  ℕ, ◌≤◌, ◌<◌, String, ◌≡◌, refl, sym, subst, Bool, true, false, not, ◌&&◌, ◌||◌, ltb, str_eq,
  eq_iff, contains, Bool-cases, inl, inr, arith, Option, none, some, List, [], ◌∷◌, if◌then◌else◌,
}
use project_fifty.Prelude.Dict.{Dict, lookup, lookup_or, has_key}
use project_fifty.Prelude.Sort.{All, sort_by, insert_by}
use project_fifty.Prelude.Seq.{length}
use project_fifty.Outcome.{ok, >>=-eq-ok, ok_injective}
use project_fifty.Decimal.{Decimal, lt, le, zero_dec}
use project_fifty.Strategies.Contracts.{MarketBar, StrategyContext}
use project_fifty.Strategies.Rebalance.{keys}
use project_fifty.Strategies.Indicators.{bar_from_end, sma, momentum}
use project_fifty.Strategies.LowFrequency.{
  LowFrequencyMomentumConfig, rate_candidate, candidate_momentum, required_history, add_rated,
  eligible_from, gate_is_off, without,
}

contains-insert_by :
    (le : String → String → Bool) (key x : String) (xs : List String)
    → contains key (insert_by le x xs) ≡ (str_eq x key || contains key xs)
unfolding contains insert_by
contains-insert_by le key x [] = refl
contains-insert_by le key x (y ∷ ys) = ground (arith, contains-insert_by le key x ys)

pub contains-sort_by :
    (le : String → String → Bool) (key : String) (xs : List String)
    → contains key (sort_by le xs) ≡ contains key xs
unfolding contains sort_by
contains-sort_by le key [] = refl
contains-sort_by le key (x ∷ xs) =
    rw (contains-insert_by le key x (sort_by le xs), contains-sort_by le key xs) refl

pub contains-keys {ℓ} :
    {V : Type ℓ} (key : String) (d : Dict V) → contains key (keys d) ≡ has_key key d
unfolding contains has_key lookup
contains-keys key [] = refl
contains-keys key ((j, v) ∷ d) = ground (arith, contains-keys key d)

module _ (config : LowFrequencyMomentumConfig) (context : StrategyContext) where
  -- There are bars for both lookbacks, the last close is above the moving average, and the momentum
  -- is `growth`, above zero.
  abbrev pub IsRising : ℕ → List MarketBar → Decimal → Type 0
  IsRising days bars growth =
      (days ≤ length bars)
      × (config.momentum_days < length bars)
      × ((latest : MarketBar) × (average : Decimal) × (bar_from_end 1 bars ≡ ok latest)
          × (sma bars days ≡ ok average)
          × (lt average latest.close ≡ true))
      × (momentum config.momentum_days bars ≡ ok growth)
      × (lt zero_dec growth ≡ true)

  -- Enough bars, for either lookback
  long_enough :
      (days : ℕ) (bars : List MarketBar)
      → ltb (length bars) (required_history days config) ≡ false
      → (days ≤ length bars) × (config.momentum_days < length bars)
  long_enough days bars h = (ground arith, ground arith)

  required_enough :
      (days : ℕ) (bars : List MarketBar)
      → days ≤ length bars
      → config.momentum_days < length bars
      → ltb (length bars) (required_history days config) ≡ false
  required_enough days bars h k = ground arith

  candidate_momentum-IsRising :
      (bars : List MarketBar) (growth : Decimal)
      → ltb (length bars) (required_history config.candidate_sma_days config) ≡ false
      → candidate_momentum config bars ≡ ok (some growth)
      → IsRising config.candidate_sma_days bars growth
  unfolding candidate_momentum
  candidate_momentum-IsRising bars growth long h =
      let (g, grown, h1) = >>=-eq-ok (momentum config.momentum_days bars) _ h in
      let (average, mean, h2) = >>=-eq-ok (sma bars config.candidate_sma_days) _ h1 in
      let (latest, last, h3) = >>=-eq-ok (bar_from_end 1 bars) _ h2 in
      let (trend, rising, same) =
        rated (lt average latest.close) (lt zero_dec g) g (ok_injective _ _ h3) in
      let (enough, lookback) = long_enough config.candidate_sma_days bars long in
      (
        enough,
        lookback,
        (latest, average, last, mean, trend),
        subst (λ x. momentum config.momentum_days bars ≡ ok x) same grown,
        subst (λ x. lt zero_dec x ≡ true) same rising,
      )
    where
      rated :
          (a b : Bool) (g : Decimal)
          → (if a && b then some g else none) ≡ some growth
          → (a ≡ true) × (b ≡ true) × (g ≡ growth)
      rated true true g e = (refl, refl, cc)
      rated true false g e = cc
      rated false b g e = cc

  pub rate_candidate-IsRising :
      (symbol : String) (growth : Decimal)
      → rate_candidate config context symbol ≡ ok (some growth)
      → IsRising config.candidate_sma_days (lookup_or [] symbol context.history) growth
  unfolding rate_candidate
  rate_candidate-IsRising symbol growth h =
      let bars = lookup_or [] symbol context.history in
      elim (Bool-cases (ltb (length bars) (required_history config.candidate_sma_days config))) [
        | inl short ↦ absurd (ground arith)
        | inr long ↦ candidate_momentum-IsRising bars growth long (rw long at h)
      ]

  IsRising-rate_candidate :
      (symbol : String) (growth : Decimal)
      → IsRising config.candidate_sma_days (lookup_or [] symbol context.history) growth
      → rate_candidate config context symbol ≡ ok (some growth)
  unfolding rate_candidate candidate_momentum
  IsRising-rate_candidate symbol growth
        (enough, lookback, (latest, average, last, mean, trend), grown, rising) =
      let bars = lookup_or [] symbol context.history in
      rw
        (
          required_enough config.candidate_sma_days bars enough lookback,
          grown,
          mean,
          last,
          trend,
          rising,
        )
        refl

  pub gate_is_off-IsRising :
      (bars : List MarketBar)
      → ltb (length bars) (required_history config.benchmark_sma_days config) ≡ false
      → gate_is_off config bars ≡ ok false
      → (growth : Decimal) × IsRising config.benchmark_sma_days bars growth
  unfolding gate_is_off le
  gate_is_off-IsRising bars long h =
      let (g, grown, h1) = >>=-eq-ok (momentum config.momentum_days bars) _ h in
      let (average, mean, h2) = >>=-eq-ok (sma bars config.benchmark_sma_days) _ h1 in
      let (latest, last, h3) = >>=-eq-ok (bar_from_end 1 bars) _ h2 in
      let (trend, rising) = up (lt average latest.close) (lt zero_dec g) (ok_injective _ _ h3) in
      let (enough, lookback) = long_enough config.benchmark_sma_days bars long in
      (g, (enough, lookback, (latest, average, last, mean, trend), grown, rising))
    where
      up : (a b : Bool) → (not a || not b) ≡ false → (a ≡ true) × (b ≡ true)
      up a b e = (ground arith, ground arith)

  lookup-add_rated :
      (symbol key : String) (rating : Option Decimal) (rated : Dict Decimal) (growth : Decimal)
      → str_eq key symbol ≡ false
      → lookup symbol rated ≡ some growth
      → lookup symbol (add_rated key rating rated) ≡ some growth
  unfolding lookup
  lookup-add_rated symbol key none rated growth other h = h
  lookup-add_rated symbol key (some g) rated growth other h = rw other h

  -- A candidate that rises is listed with its momentum.
  eligible_from-lookup :
      (benchmark symbol : String) (growth : Decimal) (symbols : List String) (rated : Dict Decimal)
      → contains symbol symbols ≡ true
      → str_eq symbol benchmark ≡ false
      → rate_candidate config context symbol ≡ ok (some growth)
      → eligible_from config context benchmark symbols ≡ ok rated
      → lookup symbol rated ≡ some growth
  unfolding eligible_from contains
  eligible_from-lookup benchmark symbol growth [] rated there other rises h = absurd (ground arith)
  eligible_from-lookup benchmark symbol growth (k ∷ ks) rated there other rises h =
      elim (Bool-cases (str_eq k symbol)) [
        | inl same ↦
            let here : k ≡ symbol = (eq_iff k symbol).0 same in
            let other_k : str_eq k benchmark ≡ false =
              subst (λ x. str_eq x benchmark ≡ false) (sym here) other in
            let rises_k : rate_candidate config context k ≡ ok (some growth) =
              subst (λ x. rate_candidate config context x ≡ ok (some growth)) (sym here) rises in
            let (rest, _, h1) =
              >>=-eq-ok (eligible_from config context benchmark ks) _
                (rw (other_k, rises_k) at h) in
            subst (λ x. lookup symbol x ≡ some growth) (ok_injective _ _ h1) (listed k rest same)
        | inr differs ↦
            let later : contains symbol ks ≡ true = rw differs at there in
            elim (Bool-cases (str_eq k benchmark)) [
              | inl skipped ↦
                  eligible_from-lookup benchmark symbol growth ks rated later other rises
                    (rw skipped at h)
              | inr tried ↦
                  let (rating, _, h1) =
                    >>=-eq-ok (rate_candidate config context k) _ (rw tried at h) in
                  let (rest, listed_rest, h2) =
                    >>=-eq-ok (eligible_from config context benchmark ks) _ h1 in
                  subst (λ x. lookup symbol x ≡ some growth) (ok_injective _ _ h2)
                    (lookup-add_rated symbol k rating rest growth differs (
                      eligible_from-lookup benchmark symbol growth ks rest later other rises
                        listed_rest))
            ]
      ]
    where
      listed :
          (k : String) (rest : Dict Decimal)
          → str_eq k symbol ≡ true
          → lookup symbol ((k, growth) ∷ rest) ≡ some growth
      listed k rest same = unfold lookup in rw same refl

  pub eligible_from-IsRising :
      (benchmark symbol : String) (growth : Decimal) (symbols : List String) (rated : Dict Decimal)
      → contains symbol symbols ≡ true
      → str_eq symbol benchmark ≡ false
      → IsRising config.candidate_sma_days (lookup_or [] symbol context.history) growth
      → eligible_from config context benchmark symbols ≡ ok rated
      → lookup symbol rated ≡ some growth
  eligible_from-IsRising benchmark symbol growth symbols rated there other rises h =
      eligible_from-lookup benchmark symbol growth symbols rated there other
        (IsRising-rate_candidate symbol growth rises) h

pub without-All :
    (symbol : String) (ks : List String) → All (λ k. str_eq k symbol ≡ false) (without symbol ks)
unfolding without
without-All symbol [] = tt
without-All symbol (k ∷ ks) = elim (Bool-cases (str_eq k symbol)) [
  | inl same ↦ rw same (without-All symbol ks)
  | inr other ↦ rw other (other, without-All symbol ks)
]
