-- ===== src/Strategies/Confirmed/Chosen.antt =====
-- The targets of the confirmed strategy: who stays, who enters, and how many.
use project_fifty.Strategies.Contracts.Allocation.{validate_target-IsAllocation}
use project_fifty.Prelude.{
  ℕ, String, ◌≡◌, sym, subst, inl, inr, Bool, true, false, Bool-cases, List, [], ◌∷◌, ◌++◌,
  if◌then◌else◌, ap,
}
use project_fifty.Prelude.Sort.{All, sort_by, str_le}
use project_fifty.Prelude.Seq.{take, length-take, take-All}
use project_fifty.Outcome.{ok, >>=-eq-ok, ok_injective}
use project_fifty.Decimal.{eq, zero_dec, one}
use project_fifty.Strategies.Contracts.{StrategyContext, TargetPortfolio}
use project_fifty.Strategies.Rebalance.{keys}
use project_fifty.Strategies.Baseline.{RegimeState, risk_budget, hundredths, shock}
use project_fifty.Strategies.Baseline.Signals.{SignalBreakdown, detect_regime}
use project_fifty.Strategies.Baseline.Target.{
  signals_of, rank_signals, technical_cash, technical_target, technical_fields,
}
use project_fifty.Strategies.Baseline.Target.Selected.{rank_signals-All, signals_of-All}
use project_fifty.Strategies.Persistent.{weakest, remove_signal, fill_slots}
use project_fifty.Strategies.Persistent.Few.{
  AreFew, fill_slots-AreFew, replace_weakest-AreFew, rank_signals-AreFew,
}
use project_fifty.Strategies.Persistent.Chosen.{
  IsEqualWeighing, technical_cash-IsEqualWeighing, equal_weights-IsEqualWeighing,
}
use project_fifty.Strategies.Confirmed.{
  ConfirmedPersistentConfig, keep_incumbents, confirmed_challengers, replacement_confirmed,
  confirmed_challenge, confirmed_challenge_all, select_confirmed, confirmed_target_in,
  confirmed_target,
}
use project_fifty.Strategies.Confirmed.Members.{
  IsConfirmed, keep_incumbents-All, confirmed_challengers-All,
}

module _ (c : ConfirmedPersistentConfig) (context : StrategyContext) where
  abbrev Member : SignalBreakdown → Type 0
  Member = IsConfirmed c context

  replaced_if :
      (n : ℕ) (candidate item : SignalBreakdown) (items : List SignalBreakdown) (confirmed : Bool)
      → AreFew Member n (item ∷ items)
      → Member candidate
      → AreFew Member n (
          if confirmed
          then remove_signal (weakest item items).symbol (item ∷ items) ++ candidate ∷ []
          else item ∷ items)
  replaced_if n candidate item items true h k =
      replace_weakest-AreFew Member n candidate item items h k
  replaced_if n candidate item items false h k = h

  confirmed_challenge-AreFew :
      (n : ℕ) (candidate : SignalBreakdown) (selected next : List SignalBreakdown)
      → AreFew Member n selected
      → Member candidate
      → confirmed_challenge c context candidate selected ≡ ok next
      → AreFew Member n next
  unfolding confirmed_challenge
  confirmed_challenge-AreFew n candidate [] next h k e =
      subst (AreFew Member n) (ok_injective _ _ e) h
  confirmed_challenge-AreFew n candidate (item ∷ items) next h k e =
      let (confirmed, _, e1) =
        >>=-eq-ok (replacement_confirmed c context candidate.symbol (weakest item items).symbol) _
          e in
      subst (AreFew Member n) (ok_injective _ _ e1)
        (replaced_if n candidate item items confirmed h k)

  confirmed_challenge_all-AreFew :
      (n : ℕ) (selected challengers chosen : List SignalBreakdown)
      → AreFew Member n selected
      → All Member challengers
      → confirmed_challenge_all c context selected challengers ≡ ok chosen
      → AreFew Member n chosen
  unfolding confirmed_challenge_all
  confirmed_challenge_all-AreFew n selected [] chosen h k e =
      subst (AreFew Member n) (ok_injective _ _ e) h
  confirmed_challenge_all-AreFew n selected (candidate ∷ challengers) chosen h k e =
      let (next, first, e1) = >>=-eq-ok (confirmed_challenge c context candidate selected) _ e in
      confirmed_challenge_all-AreFew n next challengers chosen
        (confirmed_challenge-AreFew n candidate selected next h k.0 first) k.1 e1

  select_confirmed-AreFew :
      (signals chosen : List SignalBreakdown)
      → signals_of c.signal_config context ≡ ok signals
      → select_confirmed c context signals ≡ ok chosen
      → AreFew Member c.signal_config.max_positions chosen
  unfolding select_confirmed
  select_confirmed-AreFew signals chosen scored h =
      let n = c.signal_config.max_positions in
      let (kept, first, h1) =
        >>=-eq-ok
          (keep_incumbents c context signals (sort_by str_le (keys context.portfolio.positions))) _
          h in
      let selected = take n (rank_signals kept) in
      let (entering, second, h2) =
        >>=-eq-ok (confirmed_challengers c context selected signals) _ h1 in
      let ranked = rank_signals entering in
      let filled =
        fill_slots-AreFew Member n selected ranked
          (
            take-All Member n (rank_signals kept) (
                rank_signals-All Member kept
                  (keep_incumbents-All c context signals _ kept scored first)),
            length-take n (rank_signals kept),
          )
          (rank_signals-All Member entering (
            confirmed_challengers-All c context selected signals entering
              (signals_of-All c.signal_config context signals scored) second)) in
      let slots = fill_slots n selected ranked in
      let (left, third, h3) = >>=-eq-ok (confirmed_challenge_all c context slots.0 slots.1) _ h2 in
      subst (AreFew Member n) (ok_injective _ _ h3) (
        rank_signals-AreFew Member n left
          (confirmed_challenge_all-AreFew n slots.0 slots.1 left filled.0 filled.1 third))

  pub confirmed_target_in-IsEqualWeighing :
      (version : String) (regime : RegimeState) (t : TargetPortfolio)
      → confirmed_target_in c context version regime ≡ ok t
      → IsEqualWeighing Member c.signal_config.max_positions version context
          (risk_budget c.signal_config regime)
          t
  unfolding confirmed_target_in
  confirmed_target_in-IsEqualWeighing version regime t h =
      let n = c.signal_config.max_positions in
      let budget = risk_budget c.signal_config regime in
      elim (Bool-cases (eq budget zero_dec)) [
        | inl nothing ↦
            technical_cash-IsEqualWeighing Member n version context budget (hundredths 90) t
              (rw nothing at h)
        | inr something ↦
            let (signals, scored, h1) =
              >>=-eq-ok (signals_of c.signal_config context) _ (rw something at h) in
            let (selected, chosen, h2) = >>=-eq-ok (select_confirmed c context signals) _ h1 in
            equal_weights-IsEqualWeighing Member n version context budget selected t
              (select_confirmed-AreFew signals selected scored chosen) h2
      ]

pub confirmed_target_in-shock :
    (c : ConfirmedPersistentConfig) (context : StrategyContext) (version : String)
    (t : TargetPortfolio)
    → confirmed_target_in c context version shock ≡ ok t
    → t.weights ≡ []
unfolding confirmed_target_in risk_budget eq technical_cash technical_target
confirmed_target_in-shock c context version t h =
    ap (λ (x : TargetPortfolio). x.weights)
      (sym
        (validate_target-IsAllocation (technical_fields version context [] one (hundredths 90)) t
          h).0)

-- A target of the confirmed strategy is an allocation of weights in [0, 1] that sum to 1. It has at
-- most `max_positions` weights, each the equal part of the regime's budget. Each is for an incumbent
-- that has no signal, or a score of at least the retention score, or not a score below the retention
-- score on each of the last `exit_confirmation_bars` windows; or for another symbol with a score of
-- at least the entry score, also on each of the last `entry_confirmation_bars` windows.
pub confirmed_target-IsEqualWeighing :
    (c : ConfirmedPersistentConfig) (context : StrategyContext) (t : TargetPortfolio)
    → confirmed_target c context ≡ ok t
    → (regime : RegimeState) × (detect_regime c.signal_config context context.benchmark_symbol
        ≡ ok regime)
      × IsEqualWeighing
          (IsConfirmed c context)
          c.signal_config.max_positions
          "3.0.0"
          context
          (risk_budget c.signal_config regime)
          t
unfolding confirmed_target
confirmed_target-IsEqualWeighing c context t h =
    let (regime, detected, h1) =
      >>=-eq-ok (detect_regime c.signal_config context context.benchmark_symbol) _ h in
    (regime, detected, confirmed_target_in-IsEqualWeighing c context "3.0.0" regime t h1)
