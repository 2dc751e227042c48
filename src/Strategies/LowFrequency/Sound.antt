-- ===== src/Strategies/LowFrequency/Sound.antt =====
-- The targets of the low-frequency strategy: whole allocations to what is held, or to one candidate
-- that is eligible and better than the incumbent by the margin.
use project_fifty.Prelude.Seq.{length}
use project_fifty.Strategies.Contracts.{MarketBar, StrategyContext, TargetPortfolio}
use project_fifty.Decimal.{sub, add, Decimal, le, one}
use project_fifty.Outcome.{ok_injective, >>=-eq-ok, ◌>>=◌, ok}
use project_fifty.Strategies.Rebalance.{keys}
use project_fifty.Prelude.{
  String, ◌≡◌, ◌⊎◌, refl, sym, subst, inl, inr, false, true, ◌==◌, ◌%◌, ltb, str_eq, arith, Option,
  none, some, List, [], ◌∷◌, Bool-cases, Option-cases, Bool, ◌∙◌, ap,
}
use project_fifty.Prelude.Dict.{Dict, lookup, lookup_or, has_key}
use project_fifty.Prelude.Sort.{All, sort_by-All, str_le, sort_by}
use project_fifty.Strategies.LowFrequency.Candidates.{
  IsRising, rate_candidate-IsRising, gate_is_off-IsRising, eligible_from-IsRising, without-All,
  contains-sort_by, contains-keys,
}
use project_fifty.Strategies.LowFrequency.{
  LowFrequencyMomentumConfig, eligible_from, rate_candidate, add_rated, replace_or_hold,
  select_target, momentum_target, low_frequency_target, choose_candidate, single_position, without,
  required_history, gate_is_off, ranks_before,
}
use project_fifty.Strategies.LowFrequency.Held.{
  IsMomentumTarget, IsHeldOnly, new_target-IsTarget, cash_target-IsHeldOnly,
  preserve_weights-IsHeldOnly,
}

module _ (config : LowFrequencyMomentumConfig) (context : StrategyContext) where
  -- A candidate with its momentum: not the benchmark, above its moving average and rising
  abbrev pub IsCandidate : String → String × Decimal → Type 0
  IsCandidate benchmark entry =
      IsRising config context config.candidate_sma_days (lookup_or [] entry.0 context.history)
        entry.1
      × (str_eq entry.0 benchmark ≡ false)

  add_rated-All :
      (benchmark symbol : String) (rating : Option Decimal) (rated : Dict Decimal)
      → rate_candidate config context symbol ≡ ok rating
      → str_eq symbol benchmark ≡ false
      → All (IsCandidate benchmark) rated
      → All (IsCandidate benchmark) (add_rated symbol rating rated)
  add_rated-All benchmark symbol none rated h other rest = rest
  add_rated-All benchmark symbol (some growth) rated h other rest =
      ((rate_candidate-IsRising config context symbol growth h, other), rest)

  eligible_from-All :
      (benchmark : String) (symbols : List String) (rated : Dict Decimal)
      → eligible_from config context benchmark symbols ≡ ok rated
      → All (IsCandidate benchmark) rated
  unfolding eligible_from
  eligible_from-All benchmark [] rated h =
      subst (All (IsCandidate benchmark)) (ok_injective [] rated h) tt
  eligible_from-All benchmark (symbol ∷ symbols) rated h =
      elim (Bool-cases (str_eq symbol benchmark)) [
        | inl same ↦ eligible_from-All benchmark symbols rated (ground arith)
        | inr other ↦
            let (rating, first, h1) =
              >>=-eq-ok (rate_candidate config context symbol)
                (λ rating. eligible_from config context benchmark symbols >>= λ rest.
                  ok (add_rated symbol rating rest))
                (ground arith) in
            let (rest, later, h2) =
              >>=-eq-ok (eligible_from config context benchmark symbols)
                (λ rest. ok (add_rated symbol rating rest)) h1 in
            subst (All (IsCandidate benchmark))
              (ok_injective (add_rated symbol rating rest) rated h2)
              (add_rated-All benchmark symbol rating rest first other
                (eligible_from-All benchmark symbols rest later))
      ]

  -- The challenger's momentum is above that of a listed incumbent by the margin.
  abbrev IsAhead : Dict Decimal → Decimal → List String → Type 0
  IsAhead eligible growth [] = Unit {0}
  IsAhead eligible growth (incumbent ∷ _) =
      (old : Decimal)
      → lookup incumbent eligible ≡ some old
      → le (add old config.replacement_margin) growth ≡ true

  -- Where the first incumbent has a price and is rising itself, the challenger's momentum is above
  -- its momentum by the margin.
  abbrev pub IsBetter : Decimal → List String → Type 0
  IsBetter growth [] = Unit {0}
  IsBetter growth (incumbent ∷ _) =
      (old : Decimal)
      → has_key incumbent context.reference_prices ≡ true
      → IsRising config context config.candidate_sma_days (lookup_or [] incumbent context.history)
          old
      → le (add old config.replacement_margin) growth ≡ true

  -- The risk weight goes to a candidate, which replaces an incumbent only by the margin.
  abbrev pub IsEntry : String → TargetPortfolio → Type 0
  IsEntry benchmark t =
      (challenger : String × Decimal) × IsCandidate benchmark challenger
      × (t.weights ≡ (challenger.0, config.target_risk_weight) ∷ [])
      × IsBetter challenger.1
          (sort_by str_le (without benchmark (keys context.portfolio.positions)))

  -- Every candidate that rises and has a price is listed.
  abbrev IsComplete : String → Dict Decimal → Type 0
  IsComplete benchmark eligible =
      (symbol : String) (growth : Decimal)
      → str_eq symbol benchmark ≡ false
      → has_key symbol context.reference_prices ≡ true
      → IsRising config context config.candidate_sma_days (lookup_or [] symbol context.history)
          growth
      → lookup symbol eligible ≡ some growth

  IsAhead-IsBetter :
      (benchmark : String) (eligible : Dict Decimal) (growth : Decimal) (incumbents : List String)
      → IsComplete benchmark eligible
      → All (λ k. str_eq k benchmark ≡ false) incumbents
      → IsAhead eligible growth incumbents
      → IsBetter growth incumbents
  IsAhead-IsBetter benchmark eligible growth [] complete others h = tt
  IsAhead-IsBetter benchmark eligible growth (incumbent ∷ _) complete others h =
      λ old priced rises. h old (complete incumbent old others.0 priced rises)

  -- What the choice may come to
  abbrev pub IsChoice : String → TargetPortfolio → Type 0
  IsChoice benchmark t = IsMomentumTarget context t × (IsHeldOnly context t ⊎ IsEntry benchmark t)

  replace_or_hold-IsChoice :
      (benchmark : String) (eligible : Dict Decimal) (challenger : String × Decimal)
      (incumbents : List String) (t : TargetPortfolio)
      → replace_or_hold config context eligible challenger incumbents ≡ ok t
      → IsMomentumTarget context t
        × (IsHeldOnly context t
            ⊎ ((t.weights ≡ (challenger.0, config.target_risk_weight) ∷ [])
                × IsAhead eligible challenger.1 incumbents))
  unfolding replace_or_hold single_position
  replace_or_hold-IsChoice benchmark eligible challenger [] t h =
      let (same, sound) = new_target-IsTarget context _ _ t h in (sound, inr (sym same, tt))
  replace_or_hold-IsChoice benchmark eligible challenger (incumbent ∷ _) t h =
      elim (Option-cases (lookup incumbent eligible)) [
        | inl gone ↦
            let (same, sound) =
              new_target-IsTarget context ((challenger.0, config.target_risk_weight) ∷ [])
                (sub one config.target_risk_weight) t (ground arith) in
            (sound, inr (sym same, λ old there. absurd (ground arith)))
        | inr (old, there) ↦ elim (Bool-cases (str_eq challenger.0 incumbent)) [
          | inl best ↦
              let (sound, held) = preserve_weights-IsHeldOnly context t (ground arith) in
              (sound, inl held)
          | inr other ↦ elim (Bool-cases (le (add old config.replacement_margin) challenger.1)) [
            | inl better ↦
                let (same, sound) =
                  new_target-IsTarget context ((challenger.0, config.target_risk_weight) ∷ [])
                    (sub one config.target_risk_weight) t (ground arith) in
                (sound, inr (sym same, λ older there_too. ground arith))
            | inr close ↦
                let (sound, held) = preserve_weights-IsHeldOnly context t (ground arith) in
                (sound, inl held)
          ]
        ]
      ]

  choose_candidate-IsChoice :
      (benchmark : String) (eligible ranked : Dict Decimal) (t : TargetPortfolio)
      → IsComplete benchmark eligible
      → All (IsCandidate benchmark) ranked
      → choose_candidate config context benchmark eligible ranked ≡ ok t
      → IsChoice benchmark t
  unfolding choose_candidate
  choose_candidate-IsChoice benchmark eligible [] t rated candidates h =
      let (sound, held) = cash_target-IsHeldOnly context t h in (sound, inl held)
  choose_candidate-IsChoice benchmark eligible (challenger ∷ _) t rated candidates h =
      let (sound, choice) =
        replace_or_hold-IsChoice benchmark eligible challenger
          (sort_by str_le (without benchmark (keys context.portfolio.positions))) t h in
      (
        sound,
        elim choice [
          | inl held ↦ inl held
          | inr (same, better) ↦ inr (
            challenger,
            candidates.0,
            same,
            IsAhead-IsBetter benchmark eligible challenger.1
                (sort_by str_le (without benchmark (keys context.portfolio.positions))) rated
                (sort_by-All (λ k. str_eq k benchmark ≡ false) str_le
                  (without benchmark (keys context.portfolio.positions))
                  (without-All benchmark (keys context.portfolio.positions)))
                better,
          )
        ],
      )

  select_target-IsChoice :
      (benchmark : String) (off : Bool) (t : TargetPortfolio)
      → select_target config context benchmark off ≡ ok t
      → IsMomentumTarget context t × (IsHeldOnly context t ⊎ ((off ≡ false) × IsEntry benchmark t))
  unfolding select_target
  select_target-IsChoice benchmark true t h =
      let (sound, held) = cash_target-IsHeldOnly context t h in (sound, inl held)
  select_target-IsChoice benchmark false t h =
      let (eligible, rated, h1) =
        >>=-eq-ok
          (eligible_from config context benchmark (sort_by str_le (keys context.reference_prices)))
          _ h in
      let candidates = eligible_from-All benchmark _ eligible rated in
      let (sound, choice) =
        choose_candidate-IsChoice benchmark eligible (sort_by ranks_before eligible) t
          (λ symbol growth other priced rises.
            eligible_from-IsRising config context benchmark symbol growth
              (sort_by str_le (keys context.reference_prices)) eligible
              (contains-sort_by str_le symbol (keys context.reference_prices)
                ∙ contains-keys symbol context.reference_prices
                ∙ priced)
              other rises rated)
          (sort_by-All (IsCandidate benchmark) ranks_before eligible candidates) h1 in
      (sound, elim choice [ inl held ↦ inl held | inr entry ↦ inr (refl, entry) ])

  -- The bars call for a decision, and the benchmark's trend and momentum are up.
  abbrev pub IsOpenGate : List MarketBar → Type 0
  IsOpenGate bars =
      (length bars % config.rebalance_every_bars ≡ 0)
      × ((growth : Decimal) × IsRising config context config.benchmark_sma_days bars growth)

  momentum_target-IsChoice :
      (benchmark : String) (bars : List MarketBar) (t : TargetPortfolio)
      → momentum_target config context benchmark bars ≡ ok t
      → IsMomentumTarget context t
        × (IsHeldOnly context t ⊎ (IsOpenGate bars × IsEntry benchmark t))
  unfolding momentum_target
  momentum_target-IsChoice benchmark bars t h =
      elim (Bool-cases (ltb (length bars) (required_history config.benchmark_sma_days config))) [
        | inl short ↦
            let (sound, held) = preserve_weights-IsHeldOnly context t (ground arith) in
            (sound, inl held)
        | inr long ↦ elim (Bool-cases (length bars % config.rebalance_every_bars == 0)) [
          | inr between ↦
              let (sound, held) = preserve_weights-IsHeldOnly context t (ground arith) in
              (sound, inl held)
          | inl scheduled ↦
              let (off, gate, h1) =
                >>=-eq-ok (gate_is_off config bars) (select_target config context benchmark)
                  (ground arith) in
              let (sound, choice) = select_target-IsChoice benchmark off t h1 in
              (
                sound,
                elim choice [
                  | inl held ↦ inl held
                  | inr (open_gate, entry) ↦ inr (
                    (
                      ground arith,
                      gate_is_off-IsRising config context bars long (gate ∙ ap ok open_gate),
                    ),
                    entry,
                  )
                ],
              )
        ]
      ]

-- A target of the low-frequency strategy is an allocation of weights in [0, 1] that sum to 1, and,
-- where the net asset value is not negative, what the rebalance policy and the proposal builder
-- accept for the context. Either only symbols that are held have a weight; or, where the number of the
-- benchmark's bars is a multiple of the cadence and enough for both lookbacks, its last close is above
-- its moving average and its momentum above zero, the risk weight goes to one other symbol of which
-- the same holds but for the cadence; and where that holds of the first symbol that is held, beside the
-- benchmark and by name, and it has a price, the new momentum is at least the old one and the margin.
pub low_frequency_target-IsChoice :
    (config : LowFrequencyMomentumConfig) (context : StrategyContext) (t : TargetPortfolio)
    → low_frequency_target config context context.benchmark_symbol ≡ ok t
    → IsMomentumTarget context t
      × (IsHeldOnly context t
          ⊎ ((benchmark : String) × (context.benchmark_symbol ≡ some benchmark)
              × IsOpenGate config context (lookup_or [] benchmark context.history)
              × IsEntry config context benchmark t))
unfolding low_frequency_target
low_frequency_target-IsChoice config context t h = elim (Option-cases context.benchmark_symbol) [
  | inl missing ↦
      let (sound, held) = preserve_weights-IsHeldOnly context t (ground arith) in (sound, inl held)
  | inr (benchmark, there) ↦
      let (sound, choice) =
        momentum_target-IsChoice config context benchmark (lookup_or [] benchmark context.history) t
          (ground arith) in
      (
        sound,
        elim choice [
          | inl held ↦ inl held
          | inr (gate, entry) ↦ inr (benchmark, there, gate, entry)
        ],
      )
]
