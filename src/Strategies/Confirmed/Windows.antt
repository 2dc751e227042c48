-- ===== src/Strategies/Confirmed/Windows.antt =====
-- What a confirmation says of the scores of the last windows, one by one.
use project_fifty.Prelude.{
  ℕ, zero, suc, ◌+◌, ◌-◌, ◌<◌, ◌≤◌, String, ◌≡◌, refl, sym, subst, Bool, true, false, ltb, ◌&&◌,
  Bool-cases, inl, inr, arith, Option, none, some, List, ◌∷◌,
}
use project_fifty.Prelude.Seq.{length, take}
use project_fifty.Outcome.{◌>>=◌, Result, ok, >>=-eq-ok, ok_injective}
use project_fifty.Decimal.{Decimal}
use project_fifty.Strategies.Contracts.{MarketBar}
use project_fifty.Strategies.Indicators.{bar_from_end}
use project_fifty.Strategies.Baseline.{BaselineConfig}
use project_fifty.Strategies.Baseline.Signals.{SignalBreakdown, score_symbol}
use project_fifty.Strategies.Confirmed.{
  Series, Comparison, meets, all_meet, is_met, add_point, series_from, recent_score_series,
  threshold_confirmed,
}

module _ (c : BaselineConfig) (symbol : String) (bars : List MarketBar) where
  -- The symbol has a score on its first `end` bars, which passes the test.
  abbrev pub IsAt : (Decimal → Bool) → ℕ → Type 0
  IsAt test end =
      (signal : SignalBreakdown) × (score_symbol c symbol (take end bars) ≡ ok (some signal))
      × (test signal.score ≡ true)

  -- There are so many bars, and the score passes the test at each of the last of them.
  abbrev pub AreLast : (Decimal → Bool) → ℕ → Type 0
  AreLast test count = (count ≤ length bars) × ((k : ℕ) → k < count → IsAt test (length bars - k))

  both : (a b : Bool) → (a && b) ≡ true → (a ≡ true) × (b ≡ true)
  both a b h = (ground arith, ground arith)

  -- What one window adds to a series
  Window : ℕ → Series → (Series → Type 0) → Type 0
  Window end series Rest =
      (signal : SignalBreakdown) × (time : ℕ) × (rest : Series) × (score_symbol c symbol
          (take end bars)
        ≡ ok (some signal))
      × Rest rest
      × ((time, signal.score) ∷ rest ≡ series)

  series_from-suc :
      (end left : ℕ) (series : Series)
      → series_from c symbol bars end (suc left) ≡ ok (some series)
      → Window end series (λ rest. series_from c symbol bars (suc end) left ≡ ok (some rest))
  unfolding series_from Window
  series_from-suc end left series h =
      let (found, scored, h1) = >>=-eq-ok (score_symbol c symbol (take end bars)) _ h in
      of_found found scored h1
    where
      of_rest :
          (signal : SignalBreakdown) (time : ℕ) (rest : Option Series)
          → score_symbol c symbol (take end bars) ≡ ok (some signal)
          → series_from c symbol bars (suc end) left ≡ ok rest
          → ◌≡◌ {A = Result (Option Series)}
              (ok (add_point time signal.score rest))
              (ok (some series))
          → Window end series (λ x. series_from c symbol bars (suc end) left ≡ ok (some x))
      of_rest signal time none scored later e = cc
      of_rest signal time (some rest) scored later e = (signal, time, rest, scored, later, cc)

      of_found :
          (found : Option SignalBreakdown)
          → score_symbol c symbol (take end bars) ≡ ok found
          → elim found [
            | none ↦ ok none
            | some signal ↦ bar_from_end 1 (take end bars) >>= λ last.
                series_from c symbol bars (suc end) left >>= λ rest.
                ok (add_point last.timestamp signal.score rest)
          ]
            ≡ ok (some series)
          → Window end series (λ x. series_from c symbol bars (suc end) left ≡ ok (some x))
      of_found none scored e = cc
      of_found (some signal) scored e =
          let (last, _, e1) = >>=-eq-ok (bar_from_end 1 (take end bars)) _ e in
          let (rest, later, e2) = >>=-eq-ok (series_from c symbol bars (suc end) left) _ e1 in
          of_rest signal last.timestamp rest scored later e2

  series_from-IsAt :
      (comparison : Comparison) (threshold : Decimal) (end left : ℕ) (series : Series)
      → series_from c symbol bars end left ≡ ok (some series)
      → all_meet comparison threshold series ≡ true
      → (j : ℕ) → j < left
      → IsAt (meets comparison threshold) (end + j)
  unfolding Window
  series_from-IsAt comparison threshold end zero series h met j less = absurd (omega arith)
  series_from-IsAt comparison threshold end (suc left) series h met j less =
      let (signal, time, rest, scored, later, same) = series_from-suc end left series h in
      let (now, then_on) =
        both (meets comparison threshold signal.score) (all_meet comparison threshold rest)
          (subst (λ x. all_meet comparison threshold x ≡ true) (sym same) met) in
      at j less signal scored now
        (series_from-IsAt comparison threshold (suc end) left rest later then_on)
    where
      at :
          (j : ℕ)
          → j < suc left
          → (signal : SignalBreakdown) → score_symbol c symbol (take end bars) ≡ ok (some signal)
          → meets comparison threshold signal.score ≡ true
          → ((i : ℕ) → i < left → IsAt (meets comparison threshold) (suc end + i))
          → IsAt (meets comparison threshold) (end + j)
      at zero less signal scored now rest =
          let here : end + 0 ≡ end = omega arith in
          subst (IsAt (meets comparison threshold)) (sym here) (signal, scored, now)
      at (suc i) less signal scored now rest =
          let there : suc end + i ≡ end + suc i = omega arith in
          subst (IsAt (meets comparison threshold)) there (rest i (omega arith))

  -- Where every window passes, the series that is found passes.
  found_passes :
      (comparison : Comparison) (threshold : Decimal) (end left : ℕ) (found : Option Series)
      → series_from c symbol bars end left ≡ ok found
      → ((j : ℕ) → j < left → IsAt (meets comparison threshold) (end + j))
      → is_met comparison threshold found ≡ true
  unfolding series_from
  found_passes comparison threshold end zero found h passes =
      subst (λ x. is_met comparison threshold x ≡ true) (ok_injective _ _ h) refl
  found_passes comparison threshold end (suc left) found h passes =
      let here : end + 0 ≡ end = omega arith in
      let (signal, scored, now) =
        subst (IsAt (meets comparison threshold)) here (passes 0 (omega arith)) in
      let (last, _, h1) = >>=-eq-ok (bar_from_end 1 (take end bars)) _ (rw scored at h) in
      let (rest, later, h2) = >>=-eq-ok (series_from c symbol bars (suc end) left) _ h1 in
      subst (λ x. is_met comparison threshold x ≡ true) (ok_injective _ _ h2)
        (added signal last.timestamp rest now (
          found_passes comparison threshold (suc end) left rest later λ i less.
            let there : end + suc i ≡ suc end + i = omega arith in
            subst (IsAt (meets comparison threshold)) there (passes (suc i) (omega arith))))
    where
      added :
          (signal : SignalBreakdown) (time : ℕ) (rest : Option Series)
          → meets comparison threshold signal.score ≡ true
          → is_met comparison threshold rest ≡ true
          → is_met comparison threshold (add_point time signal.score rest) ≡ true
      added signal time none now then_on = absurd (ground arith)
      added signal time (some rest) now then_on = rw now then_on

  pub threshold_confirmed-AreLast :
      (count : ℕ) (threshold : Decimal) (comparison : Comparison)
      → threshold_confirmed c symbol bars count threshold comparison ≡ ok true
      → AreLast (meets comparison threshold) count
  unfolding threshold_confirmed recent_score_series
  threshold_confirmed-AreLast count threshold comparison h =
      elim (Bool-cases (ltb (length bars) count)) [
        | inl short ↦ absurd (ground arith)
        | inr long ↦
            let (found, series, h1) =
              >>=-eq-ok (series_from c symbol bars (suc (length bars) - count) count) _
                (rw long at h) in
            let enough : count ≤ length bars = ground arith in
            (enough, last found series (ok_injective _ _ h1) enough)
      ]
    where
      last :
          (found : Option Series)
          → series_from c symbol bars (suc (length bars) - count) count ≡ ok found
          → is_met comparison threshold found ≡ true
          → count ≤ length bars
          → (k : ℕ) → k < count
          → IsAt (meets comparison threshold) (length bars - k)
      last none series met enough k less = absurd (ground arith)
      last (some found) series met enough k less =
          let there : (suc (length bars) - count) + (count - suc k) ≡ length bars - k =
            omega arith in
          subst (IsAt (meets comparison threshold)) there (
            series_from-IsAt comparison threshold (suc (length bars) - count) count found series met
              (count - suc k) (omega arith))

  pub threshold_confirmed-not :
      (count : ℕ) (threshold : Decimal) (comparison : Comparison)
      → threshold_confirmed c symbol bars count threshold comparison ≡ ok false
      → ¬ AreLast (meets comparison threshold) count
  unfolding threshold_confirmed recent_score_series
  threshold_confirmed-not count threshold comparison h (enough, passes) =
      let long : ltb (length bars) count ≡ false = ground arith in
      let (found, series, h1) =
        >>=-eq-ok (series_from c symbol bars (suc (length bars) - count) count) _ (rw long at h) in
      let met =
        found_passes comparison threshold (suc (length bars) - count) count found series λ j less.
          let there : length bars - (count - suc j) ≡ (suc (length bars) - count) + j =
            omega arith in
          subst (IsAt (meets comparison threshold)) there (passes (count - suc j) (omega arith)) in
      let missed = ok_injective _ _ h1 in absurd (ground arith)
