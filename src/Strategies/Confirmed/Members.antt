-- ===== src/Strategies/Confirmed/Members.antt =====
-- Which signals the confirmed strategy keeps, and which it lets in.
use project_fifty.Prelude.Dict.{lookup_or}
use project_fifty.Prelude.{
  String, ◌≡◌, ◌⊎◌, refl, sym, subst, inl, inr, Bool, true, false, not, ◌||◌, Bool-cases, str_eq,
  eq_iff, contains, arith, Option, none, some, List, [], ◌∷◌, if◌then◌else◌, ℕ,
}
use project_fifty.Prelude.Sort.{All}
use project_fifty.Outcome.{ok, >>=-eq-ok, ok_injective}
use project_fifty.Decimal.{lt, le, Decimal}
use project_fifty.Strategies.Contracts.{StrategyContext}
use project_fifty.Strategies.Baseline.Signals.{SignalBreakdown}
use project_fifty.Strategies.Baseline.Target.{signals_of}
use project_fifty.Strategies.Baseline.Target.Selected.{some_injective, IsScored, signals_of-All}
use project_fifty.Strategies.Persistent.{is_incumbent, symbols_of}
use project_fifty.Strategies.Confirmed.Windows.{
  AreLast, threshold_confirmed-AreLast, threshold_confirmed-not,
}
use project_fifty.Strategies.Confirmed.{
  below, at_least, ConfirmedPersistentConfig, placeholder_signal, find_signal, exit_confirmed,
  entry_confirmed, keep_incumbent, add_kept, keep_incumbents, confirmed_challengers,
}

find_signal-holds :
    (P : SignalBreakdown → Type 0) (symbol : String) (items : List SignalBreakdown)
    (item : SignalBreakdown)
    → All P items
    → find_signal symbol items ≡ some item
    → P item × (item.symbol ≡ symbol)
unfolding find_signal
find_signal-holds P symbol [] item h e = cc
find_signal-holds P symbol (x ∷ items) item h e = elim (Bool-cases (str_eq x.symbol symbol)) [
  | inl same ↦
      let found : x ≡ item = some_injective _ _ (rw same at e) in
      subst (λ y. P y × (y.symbol ≡ symbol)) found (h.0, (eq_iff x.symbol symbol).0 same)
  | inr other ↦ find_signal-holds P symbol items item h.1 (rw other at e)
]

module _ (c : ConfirmedPersistentConfig) (context : StrategyContext) where
  abbrev Scored : SignalBreakdown → Type 0
  Scored item = IsScored c.signal_config context item

  -- The symbol has no signal: it has no price, or too few bars.
  abbrev pub IsUnscored : String → Type 0
  IsUnscored symbol =
      (signals : List SignalBreakdown) × (signals_of c.signal_config context ≡ ok signals)
      × (find_signal symbol signals ≡ none)

  -- The symbol has that many bars, and a score on each of the last windows that passes the test.
  abbrev pub AreConfirmed : (Decimal → Bool) → ℕ → String → Type 0
  AreConfirmed test count symbol =
      AreLast c.signal_config symbol (lookup_or [] symbol context.history) test count

  abbrev pub IsLeaving : String → Type 0
  IsLeaving = AreConfirmed (λ score. lt score c.retention_score) c.exit_confirmation_bars

  exit_confirmed-IsLeaving :
      (symbol : String) → exit_confirmed c context symbol ≡ ok false → ¬ IsLeaving symbol
  unfolding exit_confirmed
  exit_confirmed-IsLeaving symbol h =
      threshold_confirmed-not c.signal_config symbol (lookup_or [] symbol context.history)
        c.exit_confirmation_bars c.retention_score below h

  -- An incumbent stays unless its scores on the last windows are all below the retention score; one
  -- without a signal stays too.
  abbrev pub IsStaying : SignalBreakdown → Type 0
  IsStaying item =
      (is_incumbent context item.symbol ≡ true)
      × (((item ≡ placeholder_signal item.symbol c.retention_score) × IsUnscored item.symbol)
          ⊎ (Scored item × ((le c.retention_score item.score ≡ true) ⊎ (¬ IsLeaving item.symbol))))

  -- Another symbol enters only where its score and those on the last windows are high enough.
  abbrev pub IsEntering : SignalBreakdown → Type 0
  IsEntering item =
      Scored item
      × (is_incumbent context item.symbol ≡ false)
      × (le c.entry_score item.score ≡ true)
      × AreConfirmed (λ score. le c.entry_score score) c.entry_confirmation_bars item.symbol

  abbrev pub IsConfirmed : SignalBreakdown → Type 0
  IsConfirmed item = IsStaying item ⊎ IsEntering item

  keep_incumbent-IsConfirmed :
      (signal : SignalBreakdown) (kept : Option SignalBreakdown) (items : List SignalBreakdown)
      → is_incumbent context signal.symbol ≡ true
      → Scored signal
      → keep_incumbent c context signal.symbol (some signal) ≡ ok kept
      → All IsConfirmed items
      → All IsConfirmed (add_kept c context kept items)
  unfolding keep_incumbent
  keep_incumbent-IsConfirmed signal kept items incumbent scored h rest =
      elim (Bool-cases (le c.retention_score signal.score)) [
        | inl enough ↦
            subst (λ k. All IsConfirmed (add_kept c context k items))
              (ok_injective _ _ (rw enough at h)) (inl (incumbent, inr (scored, inl enough)), rest)
        | inr low ↦
            let (confirmed, asked, h1) =
              >>=-eq-ok (exit_confirmed c context signal.symbol) _ (rw low at h) in
            subst (λ k. All IsConfirmed (add_kept c context k items)) (ok_injective _ _ h1)
              (left confirmed asked)
      ]
    where
      left :
          (confirmed : Bool)
          → exit_confirmed c context signal.symbol ≡ ok confirmed
          → All IsConfirmed (add_kept c context (if confirmed then none else some signal) items)
      left true asked = rest
      left false asked =
          (inl (incumbent, inr (scored, inr (exit_confirmed-IsLeaving signal.symbol asked))), rest)

  keep_found :
      (symbol : String) (signals : List SignalBreakdown) (found kept : Option SignalBreakdown)
      (items : List SignalBreakdown)
      → is_incumbent context symbol ≡ true
      → signals_of c.signal_config context ≡ ok signals
      → find_signal symbol signals ≡ found
      → keep_incumbent c context symbol found ≡ ok kept
      → All IsConfirmed items
      → All IsConfirmed (add_kept c context kept items)
  unfolding keep_incumbent
  keep_found symbol signals none kept items incumbent scored e h rest =
      subst (λ k. All IsConfirmed (add_kept c context k items)) (ok_injective _ _ h)
        (inl (incumbent, inl (refl, (signals, scored, e))), rest)
  keep_found symbol signals (some signal) kept items incumbent scored e h rest =
      let (mine, named) =
        find_signal-holds Scored symbol signals signal
          (signals_of-All c.signal_config context signals scored) e in
      keep_incumbent-IsConfirmed signal kept items
        (subst (λ x. is_incumbent context x ≡ true) (sym named) incumbent) mine
        (subst (λ x. keep_incumbent c context x (some signal) ≡ ok kept) (sym named) h) rest

  pub keep_incumbents-All :
      (signals : List SignalBreakdown) (symbols : List String) (items : List SignalBreakdown)
      → signals_of c.signal_config context ≡ ok signals
      → keep_incumbents c context signals symbols ≡ ok items
      → All IsConfirmed items
  unfolding keep_incumbents
  keep_incumbents-All signals [] items scored h = subst (All IsConfirmed) (ok_injective _ _ h) tt
  keep_incumbents-All signals (symbol ∷ symbols) items scored h =
      elim (Bool-cases (is_incumbent context symbol)) [
        | inl incumbent ↦
            let (kept, first, h1) =
              >>=-eq-ok (keep_incumbent c context symbol (find_signal symbol signals)) _
                (rw incumbent at h) in
            let (rest, later, h2) = >>=-eq-ok (keep_incumbents c context signals symbols) _ h1 in
            subst (All IsConfirmed) (ok_injective _ _ h2) (
              keep_found symbol signals (find_signal symbol signals) kept rest incumbent scored refl
                first (keep_incumbents-All signals symbols rest scored later))
        | inr other ↦ keep_incumbents-All signals symbols items scored (rw other at h)
      ]

  enter_if :
      (signal : SignalBreakdown) (items : List SignalBreakdown) (confirmed : Bool)
      → Scored signal
      → is_incumbent context signal.symbol ≡ false
      → le c.entry_score signal.score ≡ true
      → entry_confirmed c context signal.symbol ≡ ok confirmed
      → All IsConfirmed items
      → All IsConfirmed (if confirmed then signal ∷ items else items)
  unfolding entry_confirmed
  enter_if signal items true scored new high asked rest = (
    inr (
      scored,
      new,
      high,
      threshold_confirmed-AreLast c.signal_config signal.symbol
          (lookup_or [] signal.symbol context.history) c.entry_confirmation_bars c.entry_score
          at_least asked,
    ),
    rest,
  )
  enter_if signal items false scored new high asked rest = rest

  pub confirmed_challengers-All :
      (selected signals items : List SignalBreakdown)
      → All Scored signals
      → confirmed_challengers c context selected signals ≡ ok items
      → All IsConfirmed items
  unfolding confirmed_challengers le
  confirmed_challengers-All selected [] items scored h =
      subst (All IsConfirmed) (ok_injective _ _ h) tt
  confirmed_challengers-All selected (signal ∷ signals) items scored h =
      let held = is_incumbent context signal.symbol in
      let chosen = contains signal.symbol (symbols_of selected) in
      elim (Bool-cases ((held || chosen) || lt signal.score c.entry_score)) [
        | inl passed ↦ confirmed_challengers-All selected signals items scored.1 (rw passed at h)
        | inr able ↦
            let (confirmed, asked, h1) =
              >>=-eq-ok (entry_confirmed c context signal.symbol) _ (rw able at h) in
            let (rest, later, h2) =
              >>=-eq-ok (confirmed_challengers c context selected signals) _ h1 in
            subst (All IsConfirmed) (ok_injective _ _ h2) (
              enter_if signal rest confirmed scored.0 (new held chosen _ able)
                (high (held || chosen) _ able) asked
                (confirmed_challengers-All selected signals rest scored.1 later))
      ]
    where
      high : (a b : Bool) → (a || b) ≡ false → not b ≡ true
      high a b h = ground arith

      new : (a b c : Bool) → ((a || b) || c) ≡ false → a ≡ false
      new a b c h = ground arith
