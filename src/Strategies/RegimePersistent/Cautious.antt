-- ===== src/Strategies/RegimePersistent/Cautious.antt =====
-- The effective regime is never riskier than the raw one, which is the baseline's.
use project_fifty.Prelude.{
  zero, ◌∙◌, ℕ, suc, ◌+◌, ◌-◌, ◌≤◌, String, ◌≡◌, refl, sym, ap, subst, inl, inr, true, Bool-cases,
  arith, Option, none, some, List, [], ◌∷◌, ◌<◌,
}
use project_fifty.Prelude.Dict.{lookup_or}
use project_fifty.Prelude.Seq.{length, take, take_all}
use project_fifty.Outcome.{ok, >>=-eq-ok, ok_injective}
use project_fifty.Strategies.Contracts.{MarketBar, StrategyContext, TargetPortfolio}
use project_fifty.Strategies.Baseline.{
  BaselineConfig, RegimeState, risk_on, neutral, risk_off, shock, risk_budget,
}
use project_fifty.Strategies.Baseline.Signals.{regime_of_bars, detect_regime}
use project_fifty.Strategies.Persistent.Chosen.{IsEqualWeighing}
use project_fifty.Strategies.Confirmed.{ConfirmedPersistentConfig, confirmed_target_in}
use project_fifty.Strategies.Confirmed.Members.{IsConfirmed}
use project_fifty.Strategies.Confirmed.Chosen.{
  confirmed_target_in-IsEqualWeighing, confirmed_target_in-shock,
}
use project_fifty.Strategies.RegimePersistent.{
  RegimePersistenceDiagnostics, regime_confirmation_bars, raw_regime_for_bars, regimes_from,
  first_end, recent_raw_regimes, all_risk_on, raw_of, confirm_regime, effective_of, diagnose,
  regime_diagnostics, regime_persistent_target,
}

-- Regimes in the order of the exposure that they stand for
abbrev pub exposure : RegimeState → ℕ
exposure shock = 0
exposure risk_off = 1
exposure neutral = 2
exposure risk_on = 3

-- The exposure is at most the raw one, and the highest only where all the last bars confirm it.
abbrev IsCautious : RegimePersistenceDiagnostics → Type 0
IsCautious d =
    (exposure d.effective_regime ≤ exposure d.raw_regime)
    × (d.effective_regime ≡ risk_on
        → (all_risk_on d.recent_raw_regimes ≡ true) × (3 ≤ length d.recent_raw_regimes))

raw_of-risk_on :
    (regime : RegimeState) (regimes : List RegimeState)
    → all_risk_on (regime ∷ regimes) ≡ true
    → raw_of (regime ∷ regimes) ≡ risk_on
unfolding raw_of
raw_of-risk_on risk_on [] h = refl
raw_of-risk_on risk_on (other ∷ regimes) h = raw_of-risk_on other regimes h
raw_of-risk_on _ regimes h = absurd (ground arith)

confirm_regime-IsCautious :
    (raw : RegimeState) (sequence : List RegimeState)
    → 2 ≤ exposure raw
    → (all_risk_on sequence ≡ true → raw ≡ risk_on)
    → (exposure (confirm_regime raw sequence).0 ≤ exposure raw)
      × ((confirm_regime raw sequence).0 ≡ risk_on
          → (all_risk_on sequence ≡ true) × (3 ≤ length sequence))
unfolding confirm_regime
confirm_regime-IsCautious raw sequence high only = elim (Bool-cases (all_risk_on sequence)) [
  | inl on ↦ let same = only on in ground arith
  | inr off ↦ ground arith
]

effective_of-IsCautious :
    (raw regime : RegimeState) (regimes : List RegimeState)
    → raw_of (regime ∷ regimes) ≡ raw
    → (exposure (effective_of raw (regime ∷ regimes)).0 ≤ exposure raw)
      × ((effective_of raw (regime ∷ regimes)).0 ≡ risk_on
          → (all_risk_on (regime ∷ regimes) ≡ true) × (3 ≤ length (regime ∷ regimes)))
unfolding effective_of
effective_of-IsCautious shock regime regimes e = (omega arith, λ h. absurd (ground arith))
effective_of-IsCautious risk_off regime regimes e = (omega arith, λ h. absurd (ground arith))
effective_of-IsCautious raw regime regimes e =
    confirm_regime-IsCautious raw (regime ∷ regimes) (omega arith)
      (λ on. sym e ∙ raw_of-risk_on regime regimes on)

diagnose-IsCautious : (sequence : List RegimeState) → IsCautious (diagnose sequence)
unfolding diagnose raw_of effective_of confirm_regime length
diagnose-IsCautious [] = (omega arith, λ h. absurd (ground arith))
diagnose-IsCautious (regime ∷ regimes) =
    effective_of-IsCautious (raw_of (regime ∷ regimes)) regime regimes refl

-- The regime of so many bars is RISK_ON, and so is that of the bars up to each of the two before.
abbrev pub IsProven : BaselineConfig → List MarketBar → Type 0
IsProven c bars =
    (3 ≤ length bars)
    × ((k : ℕ) → k < 3 → regime_of_bars c (take (length bars - k) bars) ≡ ok risk_on)

all_risk_on-cons :
    (regime : RegimeState) (regimes : List RegimeState)
    → all_risk_on (regime ∷ regimes) ≡ true
    → (regime ≡ risk_on) × (all_risk_on regimes ≡ true)
all_risk_on-cons risk_on regimes h = (refl, h)
all_risk_on-cons _ regimes h = absurd (ground arith)

regimes_from-risk_on :
    (c : BaselineConfig) (bars : List MarketBar) (end left : ℕ) (sequence : List RegimeState)
    → regimes_from c bars end left ≡ ok sequence
    → all_risk_on sequence ≡ true
    → (length sequence ≡ left)
      × ((j : ℕ) → j < left → regime_of_bars c (take (end + j) bars) ≡ ok risk_on)
unfolding regimes_from raw_regime_for_bars length
regimes_from-risk_on c bars end zero sequence h on =
    (ap length (sym (ok_injective _ _ h)), λ j less. absurd (omega arith))
regimes_from-risk_on c bars end (suc left) sequence h on =
    let (regime, first, h1) = >>=-eq-ok (regime_of_bars c (take end bars)) _ h in
    let (rest, later, h2) = >>=-eq-ok (regimes_from c bars (suc end) left) _ h1 in
    let same = ok_injective _ _ h2 in
    let (now, then_on) =
      all_risk_on-cons regime rest (subst (λ x. all_risk_on x ≡ true) (sym same) on) in
    let (many, others) = regimes_from-risk_on c bars (suc end) left rest later then_on in
    (sym (ap length same) ∙ ap suc many, at (first ∙ ap ok now) others)
  where
    at :
        regime_of_bars c (take end bars) ≡ ok risk_on
        → ((j : ℕ) → j < left → regime_of_bars c (take (suc end + j) bars) ≡ ok risk_on)
        → (j : ℕ) → j < suc left
        → regime_of_bars c (take (end + j) bars) ≡ ok risk_on
    at first others zero less =
        let here : end ≡ end + 0 = omega arith in
        subst (λ n. regime_of_bars c (take n bars) ≡ ok risk_on) here first
    at first others (suc j) less =
        let there : suc end + j ≡ end + suc j = omega arith in
        subst (λ n. regime_of_bars c (take n bars) ≡ ok risk_on) there (others j (omega arith))

three_windows :
    (n : ℕ)
    → 3 ≤ suc n - first_end n regime_confirmation_bars
    → (3 ≤ n) × (first_end n regime_confirmation_bars + 2 ≡ n)
unfolding first_end
three_windows n h = (ground arith, ground arith)

recent_raw_regimes-IsProven :
    (c : BaselineConfig) (bars : List MarketBar) (sequence : List RegimeState)
    → recent_raw_regimes c bars regime_confirmation_bars ≡ ok sequence
    → all_risk_on sequence ≡ true
    → 3 ≤ length sequence
    → IsProven c bars
unfolding recent_raw_regimes
recent_raw_regimes-IsProven c [] sequence h on many =
    absurd
      (let none_there : length sequence ≡ 0 = ap length (sym (ok_injective _ _ h)) in omega arith)
recent_raw_regimes-IsProven c (bar ∷ bars) sequence h on many =
    let n = length (bar ∷ bars) in
    let (count, windows) =
      regimes_from-risk_on c (bar ∷ bars) (first_end n regime_confirmation_bars)
        (suc n - first_end n regime_confirmation_bars) sequence h on in
    let (enough, start) = three_windows n (let same = count in omega arith) in
    (
      enough,
      λ k less.
          let there : first_end n regime_confirmation_bars + (2 - k) ≡ n - k = omega arith in
          subst (λ x. regime_of_bars c (take x (bar ∷ bars)) ≡ ok risk_on) there
            (windows (2 - k) (omega arith)),
    )

-- A sequence that is not empty, with its last regime
abbrev IsLast : BaselineConfig → List MarketBar → List RegimeState → Type 0
IsLast c bars sequence =
    (regime : RegimeState) × (regimes : List RegimeState) × (regime ∷ regimes ≡ sequence)
    × (regime_of_bars c bars ≡ ok (raw_of (regime ∷ regimes)))

IsLast-cons :
    (c : BaselineConfig) (bars : List MarketBar) (regime : RegimeState) (rest : List RegimeState)
    → IsLast c bars rest
    → IsLast c bars (regime ∷ rest)
unfolding raw_of
IsLast-cons c bars regime rest (other, others, same, last) =
    (regime, other ∷ others, ap (λ x. regime ∷ x) same, last)

regimes_from-IsLast :
    (c : BaselineConfig) (bars : List MarketBar) (end left : ℕ) (sequence : List RegimeState)
    → regimes_from c bars end (suc left) ≡ ok sequence
    → IsLast c (take (end + left) bars) sequence
unfolding regimes_from raw_of raw_regime_for_bars
regimes_from-IsLast c bars end ℕ.zero sequence h =
    let (regime, last, h1) = >>=-eq-ok (regime_of_bars c (take end bars)) _ h in
    let ends : end + 0 ≡ end = omega arith in
    subst (λ n. IsLast c (take n bars) sequence) (sym ends) (regime, [], ok_injective _ _ h1, last)
regimes_from-IsLast c bars end (suc left) sequence h =
    let (regime, first, h1) = >>=-eq-ok (regime_of_bars c (take end bars)) _ h in
    let (rest, later, h2) = >>=-eq-ok (regimes_from c bars (suc end) (suc left)) _ h1 in
    let ends : suc end + left ≡ end + suc left = omega arith in
    subst (λ n. IsLast c (take n bars) sequence) ends
      (subst (IsLast c (take (suc end + left) bars)) (ok_injective _ _ h2) (
        IsLast-cons c (take (suc end + left) bars) regime rest
          (regimes_from-IsLast c bars (suc end) left rest later)))

windows_left :
    (n : ℕ)
    → let start = first_end (suc n) regime_confirmation_bars in
      suc (suc n) - start ≡ suc (suc n - start)
unfolding first_end
windows_left n = ground arith

last_window :
    (n : ℕ)
    → let start = first_end (suc n) regime_confirmation_bars in start + (suc n - start) ≡ suc n
unfolding first_end
last_window n = ground arith

-- The raw regime of the last windows is that of all the bars.
recent_raw_regimes-raw :
    (c : BaselineConfig) (bars : List MarketBar) (sequence : List RegimeState)
    → recent_raw_regimes c bars regime_confirmation_bars ≡ ok sequence
    → regime_of_bars c bars ≡ ok (raw_of sequence)
unfolding recent_raw_regimes raw_of
recent_raw_regimes-raw c [] sequence h =
    subst (λ x. regime_of_bars c [] ≡ ok (raw_of x)) (ok_injective _ _ h)
      (unfold regime_of_bars in ground arith)
recent_raw_regimes-raw c (bar ∷ bars) sequence h =
    let start = first_end (length (bar ∷ bars)) regime_confirmation_bars in
    let left = length (bar ∷ bars) - start in
    let windows : suc (length (bar ∷ bars)) - start ≡ suc left = windows_left (length bars) in
    let ends : start + left ≡ length (bar ∷ bars) = last_window (length bars) in
    let (regime, regimes, same, last) =
      regimes_from-IsLast c (bar ∷ bars) start left sequence
        (subst (λ n. regimes_from c (bar ∷ bars) start n ≡ ok sequence) windows h) in
    subst (λ x. regime_of_bars c x ≡ ok (raw_of sequence))
      (ap (λ n. take n (bar ∷ bars)) ends ∙ take_all (bar ∷ bars))
      (subst (λ x. regime_of_bars c (take (start + left) (bar ∷ bars)) ≡ ok (raw_of x)) same last)

-- The last bars of the benchmark prove RISK_ON.
abbrev pub IsProvenFor : BaselineConfig → StrategyContext → Option String → Type 0
IsProvenFor c context benchmark =
    (symbol : String) × (benchmark ≡ some symbol) × IsProven c (lookup_or [] symbol context.history)

diagnosed :
    (c : BaselineConfig) (context : StrategyContext) (d : RegimePersistenceDiagnostics)
    (benchmark : Option String)
    → regime_diagnostics c context benchmark ≡ ok d
    → IsCautious d
      × (detect_regime c context benchmark ≡ ok d.raw_regime)
      × (d.effective_regime ≡ risk_on → IsProvenFor c context benchmark)
unfolding regime_diagnostics detect_regime diagnose
diagnosed c context d none h =
    subst
      (λ x.
        IsCautious x
        × (ok neutral ≡ ok x.raw_regime)
        × (x.effective_regime ≡ risk_on → IsProvenFor c context none))
      (ok_injective _ _ h)
      ((omega arith, λ e. absurd (ground arith)), refl, λ e. absurd (ground arith))
diagnosed c context d (some benchmark) h =
    let bars = lookup_or [] benchmark context.history in
    let (sequence, recent, h1) =
      >>=-eq-ok (recent_raw_regimes c bars regime_confirmation_bars) _ h in
    let cautious = diagnose-IsCautious sequence in
    subst
      (λ x.
        IsCautious x
        × (regime_of_bars c bars ≡ ok x.raw_regime)
        × (x.effective_regime ≡ risk_on → IsProvenFor c context (some benchmark)))
      (ok_injective _ _ h1)
      (
        cautious,
        recent_raw_regimes-raw c bars sequence recent,
        λ on.
            let (all, many) = cautious.1 on in
            (benchmark, refl, recent_raw_regimes-IsProven c bars sequence recent all many),
      )

exposure-shock : (regime : RegimeState) → exposure regime ≤ 0 → regime ≡ shock
exposure-shock shock h = refl
exposure-shock risk_off h = absurd (omega arith)
exposure-shock neutral h = absurd (omega arith)
exposure-shock risk_on h = absurd (omega arith)

-- The regime that a target of the regime-persistent strategy acts on has no more exposure than the raw
-- one, which is what the baseline detects, and is RISK_ON only where there are three or more bars of
-- the benchmark and the regime of all of them, of all but the last and of all but the last two is
-- RISK_ON. The target has at most `max_positions` weights, each the equal part of this regime's budget
-- and for a symbol that the confirmed strategy may choose; it has none where the raw regime is a shock.
pub regime_persistent_target-IsEqualWeighing :
    (c : ConfirmedPersistentConfig) (context : StrategyContext) (t : TargetPortfolio)
    → regime_persistent_target c context ≡ ok t
    → (raw : RegimeState) × (effective : RegimeState) × (detect_regime c.signal_config context
          context.benchmark_symbol
        ≡ ok raw)
      × (exposure effective ≤ exposure raw)
      × (effective ≡ risk_on → IsProvenFor c.signal_config context context.benchmark_symbol)
      × IsEqualWeighing
          (IsConfirmed c context)
          c.signal_config.max_positions
          "4.0.0"
          context
          (risk_budget c.signal_config effective)
          t
      × (raw ≡ shock → t.weights ≡ [])
unfolding regime_persistent_target
regime_persistent_target-IsEqualWeighing c context t h =
    let (d, found, h1) =
      >>=-eq-ok (regime_diagnostics c.signal_config context context.benchmark_symbol) _ h in
    let (cautious, raw, proven) =
      diagnosed c.signal_config context d context.benchmark_symbol found in
    (
      d.raw_regime,
      d.effective_regime,
      raw,
      cautious.0,
      proven,
      confirmed_target_in-IsEqualWeighing c context "4.0.0" d.effective_regime t h1,
      λ e. confirmed_target_in-shock c context "4.0.0" t (
          subst (λ r. confirmed_target_in c context "4.0.0" r ≡ ok t)
            (exposure-shock d.effective_regime
              (subst (λ r. exposure d.effective_regime ≤ exposure r) e cautious.0))
            h1),
    )
