-- ===== src/Strategies/Persistent/Kept.antt =====
-- Incumbents that no challenger beats by the margin.
use project_fifty.Strategies.Contracts.Allocation.{validate_target-IsAllocation}
use project_fifty.Strategies.Indicators.{decimal_of}
use project_fifty.Prelude.{
  refl, ◌∙◌, ℕ, String, ◌≡◌, inl, inr, Bool, true, false, Bool-cases, str_eq, eq_iff, contains, ltb,
  arith, List, [], ◌∷◌, ◌++◌, not, ◌&&◌, map, subst,
}
use project_fifty.Prelude.Dict.{has_key, lookup}
use project_fifty.Prelude.Sort.{All, All-weaken, All-both, All-each, insert_by, sort_by}
use project_fifty.Prelude.Seq.{take-All, length-take, length}
use project_fifty.Outcome.{ok, >>=-eq-ok}
use project_fifty.Decimal.{Decimal, lt, le, eq, add, zero_dec, div, sub, one, min, max}
use project_fifty.Strategies.Contracts.{StrategyContext, TargetPortfolio, sum_from}
use project_fifty.Strategies.Baseline.{RegimeState, risk_budget}
use project_fifty.Strategies.Baseline.Signals.{SignalBreakdown, detect_regime}
use project_fifty.Strategies.Baseline.Target.{
  signals_of, keep_signals, rank_signals, scores_of, technical_target, technical_fields,
}
use project_fifty.Strategies.Baseline.Target.Selected.{keep_signals-All, rank_signals-All}
use project_fifty.Strategies.Persistent.{
  PersistentBaselineConfig, symbols_of, weakest, remove_signal, fill_slots, challenge,
  challenge_all, retained_signals, select_persistent, equal_weights, persistent_target_in,
  persistent_target,
}
use project_fifty.Strategies.Persistent.Few.{
  AreFew, challenge-AreFew, fill_slots-AreFew, weakest-holds,
}

abbrev pub Selects : String → List SignalBreakdown → Type 0
Selects symbol items = contains symbol (symbols_of items) ≡ true

Selects-append :
    (symbol : String) (items others : List SignalBreakdown)
    → Selects symbol items
    → Selects symbol (items ++ others)
unfolding contains
Selects-append symbol [] others h = cc
Selects-append symbol (item ∷ items) others h = elim (Bool-cases (str_eq item.symbol symbol)) [
  | inl same ↦ rw same refl
  | inr other ↦ rw other (Selects-append symbol items others (rw other at h))
]

Selects-remove_signal :
    (symbol gone : String) (items : List SignalBreakdown)
    → str_eq gone symbol ≡ false
    → Selects symbol items
    → Selects symbol (remove_signal gone items)
unfolding contains remove_signal
Selects-remove_signal symbol gone [] e h = cc
Selects-remove_signal symbol gone (item ∷ items) e h = elim (Bool-cases (str_eq item.symbol gone)) [
  | inl same ↦
      rw same
        (ground (arith, e, eq_iff item.symbol gone, eq_iff item.symbol symbol, eq_iff gone symbol))
  | inr other ↦ rw other (elim (Bool-cases (str_eq item.symbol symbol)) [
    | inl here ↦ rw here refl
    | inr there ↦ rw there (Selects-remove_signal symbol gone items e (rw there at h))
  ])
]

Selects-insert_by :
    (symbol : String) (before : SignalBreakdown → SignalBreakdown → Bool) (item : SignalBreakdown)
    (items : List SignalBreakdown)
    → contains symbol (symbols_of (insert_by before item items))
      ≡ contains symbol (symbols_of (item ∷ items))
unfolding contains insert_by
Selects-insert_by symbol before item [] = refl
Selects-insert_by symbol before item (other ∷ items) = elim (Bool-cases (before item other)) [
  | inl first ↦ rw first refl
  | inr later ↦ rw later (ground (arith, Selects-insert_by symbol before item items))
]

Selects-sort_by :
    (symbol : String) (before : SignalBreakdown → SignalBreakdown → Bool)
    (items : List SignalBreakdown)
    → contains symbol (symbols_of (sort_by before items)) ≡ contains symbol (symbols_of items)
unfolding contains sort_by
Selects-sort_by symbol before [] = refl
Selects-sort_by symbol before (item ∷ items) = ground (
  arith,
  Selects-insert_by symbol before item (sort_by before items),
  Selects-sort_by symbol before items,
)

Selects-rank_signals :
    (symbol : String) (items : List SignalBreakdown)
    → Selects symbol items
    → Selects symbol (rank_signals items)
unfolding rank_signals
Selects-rank_signals symbol items h = Selects-sort_by symbol _ items ∙ h

module _ (margin : Decimal) (symbol : String) (signals : List SignalBreakdown) where
  -- The score of the one is below that of the other, if this is of the symbol, with the margin on top.
  abbrev pub Loses : SignalBreakdown → SignalBreakdown → Type 0
  Loses s item = item.symbol ≡ symbol → lt s.score (add item.score margin) ≡ true

  abbrev pub IsUnbeaten : SignalBreakdown → Type 0
  IsUnbeaten item = All (λ s. Loses s item) signals

  abbrev IsRated : SignalBreakdown → Type 0
  IsRated item = IsUnbeaten item × ((other : SignalBreakdown) → IsUnbeaten other → Loses item other)

  signals-IsRated : All IsUnbeaten signals → All IsRated signals
  signals-IsRated h = All-both _ _ signals h (All-each Loses signals)

  fill_slots-Selects :
      (slots : ℕ) (selected challengers : List SignalBreakdown)
      → Selects symbol selected
      → Selects symbol (fill_slots slots selected challengers).0
  unfolding fill_slots
  fill_slots-Selects slots selected [] h = h
  fill_slots-Selects slots selected (candidate ∷ challengers) h =
      elim (Bool-cases (ltb (length selected) slots)) [
        | inl free ↦ rw free (
            fill_slots-Selects slots (selected ++ candidate ∷ []) challengers
              (Selects-append symbol selected (candidate ∷ []) h))
        | inr full ↦ rw full h
      ]

  challenge-Selects :
      (candidate : SignalBreakdown) (selected : List SignalBreakdown)
      → IsRated candidate
      → All IsRated selected
      → Selects symbol selected
      → Selects symbol (challenge margin candidate selected)
  unfolding challenge
  challenge-Selects candidate [] rated all h = h
  challenge-Selects candidate (item ∷ items) rated all h =
      let weak = weakest item items in
      let unbeaten = (weakest-holds IsRated item items all.0 all.1).0 in
      elim (Bool-cases (lt candidate.score (add (weakest item items).score margin))) [
        | inl below ↦ rw below h
        | inr edge ↦ rw edge (elim (Bool-cases (str_eq (weakest item items).symbol symbol)) [
          | inl same ↦
              let loses = rated.1 weak unbeaten ((eq_iff weak.symbol symbol).0 same) in
              absurd (ground (arith, loses, edge))
          | inr other ↦
              Selects-append symbol (remove_signal weak.symbol (item ∷ items)) (candidate ∷ [])
                (Selects-remove_signal symbol weak.symbol (item ∷ items) other h)
        ])
      ]

  challenge_all-Selects :
      (n : ℕ) (selected challengers : List SignalBreakdown)
      → AreFew IsRated n selected
      → All IsRated challengers
      → Selects symbol selected
      → Selects symbol (challenge_all margin selected challengers)
  unfolding challenge_all
  challenge_all-Selects n selected [] few all h = h
  challenge_all-Selects n selected (candidate ∷ challengers) few all h =
      challenge_all-Selects n (challenge margin candidate selected) challengers
        (challenge-AreFew IsRated n margin candidate selected few all.0) all.1
        (challenge-Selects candidate selected all.0 few.0 h)

module _ (c : PersistentBaselineConfig) (context : StrategyContext) (signals : List SignalBreakdown)
    (symbol : String) where
  select_persistent-Selects :
      All (IsUnbeaten c.replacement_margin symbol signals) signals
      → Selects symbol (retained_signals c context signals)
      → Selects symbol (select_persistent c context signals)
  unfolding select_persistent
  select_persistent-Selects unbeaten h =
      let n = c.signal_config.max_positions in
      let P = IsRated c.replacement_margin symbol signals in
      let rated = signals-IsRated c.replacement_margin symbol signals unbeaten in
      let retained = retained_signals c context signals in
      let few : AreFew P n retained =
        unfold retained_signals in
        (
          take-All P n _ (
              rank_signals-All P _ (
                All-weaken (keep_signals _ signals) (λ item k. k.0)
                  (keep_signals-All P _ signals rated))),
          length-take n _,
        ) in
      let able = rank_signals-All P _ (
        All-weaken
          (keep_signals
            (λ item.
              not (contains item.symbol (symbols_of retained)) && le c.entry_score item.score)
            signals)
          (λ item k. k.0) (keep_signals-All P _ signals rated)) in
      let filled = fill_slots-AreFew P n retained _ few able in
      Selects-rank_signals symbol _ (
        challenge_all-Selects c.replacement_margin symbol signals n _ _ filled.0 filled.1
          (fill_slots-Selects c.replacement_margin symbol signals n retained _ h))

  has_key-symbols_of :
      (weight : Decimal) (items : List SignalBreakdown)
      → Selects symbol items
      → has_key symbol (map (λ (chosen : SignalBreakdown). (chosen.symbol, weight)) items) ≡ true
  unfolding has_key lookup contains
  has_key-symbols_of weight [] h = cc
  has_key-symbols_of weight (item ∷ items) h = elim (Bool-cases (str_eq item.symbol symbol)) [
    | inl same ↦ rw (has_key, same) refl
    | inr other ↦ rw (has_key, other) (has_key-symbols_of weight items (rw other at h))
  ]

  equal_weights-has_key :
      (version : String) (budget : Decimal) (items : List SignalBreakdown) (t : TargetPortfolio)
      → Selects symbol items
      → equal_weights version context budget items ≡ ok t
      → has_key symbol t.weights ≡ true
  unfolding equal_weights
  equal_weights-has_key version budget [] t h e = absurd (unfold contains in cc)
  equal_weights-has_key version budget (item ∷ items) t h e =
      let (weight, _, e1) = >>=-eq-ok (div budget (decimal_of (length (item ∷ items)))) _ e in
      let (average, _, e2) =
        >>=-eq-ok
          (div (sum_from zero_dec (scores_of (item ∷ items))) (decimal_of (length (item ∷ items))))
          _ e1 in
      let weights = map (λ (chosen : SignalBreakdown). (chosen.symbol, weight)) (item ∷ items) in
      let fields =
        technical_fields version context weights (sub one budget)
          (min (max average zero_dec) one) in
      subst (λ (x : TargetPortfolio). has_key symbol x.weights ≡ true)
        (validate_target-IsAllocation fields t (unfold technical_target in e2)).0
        (has_key-symbols_of weight (item ∷ items) h)

  -- Where the risk budget of the regime is not zero, an incumbent that is retained, and whose score
  -- with the replacement margin on top is above that of every signal, is in every target of the
  -- persistent strategy. `signals` are those of all symbols.
  pub persistent_target-has_key :
      (regime : RegimeState) (t : TargetPortfolio)
      → detect_regime c.signal_config context context.benchmark_symbol ≡ ok regime
      → eq (risk_budget c.signal_config regime) zero_dec ≡ false
      → signals_of c.signal_config context ≡ ok signals
      → Selects symbol (retained_signals c context signals)
      → All (IsUnbeaten c.replacement_margin symbol signals) signals
      → persistent_target c context ≡ ok t
      → has_key symbol t.weights ≡ true
  unfolding persistent_target persistent_target_in
  persistent_target-has_key regime t detected budget scored retained unbeaten h =
      equal_weights-has_key "2.0.0" (risk_budget c.signal_config regime)
        (select_persistent c context signals) t (select_persistent-Selects unbeaten retained)
        (rw (detected, budget, scored) at h)
