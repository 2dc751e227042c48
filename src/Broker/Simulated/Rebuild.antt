-- ===== src/Broker/Simulated/Rebuild.antt =====
-- The simulated broker and the reconciler: what the broker holds is what its reports say.
use project_fifty.Prelude.Dict.{lookup_or, lookup}
use project_fifty.Prelude.{
  ℕ, ◌+◌, ◌*◌, ◌≤◌, String, ◌≡◌, ◌∙◌, refl, subst, Bool, arith, eq_refl, Option, some, List, [],
  ◌∷◌, contains,
}
use project_fifty.Prelude.Seq.{length}
use project_fifty.Outcome.{Result, ok, err}
use project_fifty.Decimal.{Decimal}
use project_fifty.Domain.{OrderIntent, ExecutionReport}
use project_fifty.Reconcile.{Replay, replay_reports, start}
use project_fifty.Broker.Simulated.{Simulated, new_simulated, submit}
use project_fifty.Broker.Simulated.Refused.{submit-refused}
use project_fifty.Broker.Simulated.Prices.{IsOrder, IsTariff}
use project_fifty.Broker.Simulated.Identifiers.{AreDistinctIds}
use project_fifty.Broker.Simulated.Replay.{Agrees}
use project_fifty.Broker.Simulated.Follow.{submit-Follows}

-- Submissions one after another: the reports of those that returned one, and the last state
abbrev pub with_report : Result ExecutionReport → List ExecutionReport → List ExecutionReport
with_report (ok report) reports = report ∷ reports
with_report (err raised) reports = reports

unfoldable pub submit_each :
    (ℕ → String) → List OrderIntent → Simulated → List ExecutionReport × Simulated
unfolding submit
submit_each uuid4 [] b = ([], b)
submit_each uuid4 (i ∷ intents) b =
    let done = submit uuid4 i b in
    let rest = submit_each uuid4 intents done.1 in (with_report done.0 rest.0, rest.1)

abbrev pub AreOrders : List OrderIntent → Type 0
AreOrders [] = Unit {0}
AreOrders (i ∷ intents) = IsOrder i × AreOrders intents

module _ (uuid4 : ℕ → String) (count : ℕ) (currency : String)
    (distinct : AreDistinctIds uuid4 count) where
  -- The states agree, and there are identifiers for so many submissions.
  abbrev IsReady : ℕ → Replay → Simulated → Type 0
  IsReady submissions st b = Agrees uuid4 count currency st b × (b.drawn + 2 * submissions ≤ count)

  -- The reconciler takes the reports, and its last state agrees with the broker's.
  abbrev pub IsRebuilt : Replay → List ExecutionReport × Simulated → Type 0
  IsRebuilt st run =
      (last : Replay) × (replay_reports currency run.0 st ≡ ok last)
      × Agrees uuid4 count currency last run.1

  submit_each-IsRebuilt :
      (intents : List OrderIntent) (st : Replay) (b : Simulated)
      → AreOrders intents
      → IsReady (length intents) st b
      → IsRebuilt st (submit_each uuid4 intents b)
  unfolding submit_each length replay_reports
  submit_each-IsRebuilt [] st b orders ready = (st, refl, ready.0)
  submit_each-IsRebuilt (i ∷ intents) st b orders ready =
      after (submit uuid4 i b) refl λ next mid. submit_each-IsRebuilt intents next mid orders.1
    where
      after :
          (done : Result ExecutionReport × Simulated)
          → submit uuid4 i b ≡ done
          → ((next : Replay) (mid : Simulated)
              → IsReady (length intents) next mid
              → IsRebuilt next (submit_each uuid4 intents mid))
          → IsRebuilt st
              (let rest = submit_each uuid4 intents done.1 in (with_report done.0 rest.0, rest.1))
      after (ok r, mid) h later =
          let f =
            submit-Follows uuid4 count currency distinct i st b mid r ready.0
              (let enough = ready.1 in omega arith) orders.0 h in
          let enough : mid.drawn + 2 * length intents ≤ count =
            let drawn = f.drawn in let before = ready.1 in omega arith in
          let (last, replayed, agrees) = later f.next mid (f.agrees, enough) in
          (last, f.replayed _ ∙ replayed, agrees)
      after (err e, mid) h later =
          let a = ready.0 in
          let same = submit-refused uuid4 i b mid e a.listed a.tariff orders.0 h in
          let enough : b.drawn + 2 * length intents ≤ count = let before = ready.1 in omega arith in
          later st mid (subst (IsReady (length intents) st) same (a, enough))

lookup-nil : (key : String) (r : ExecutionReport) → lookup key [] ≡ some r → ⊥
unfolding lookup
lookup-nil key r h = cc

new_simulated-Agrees :
    (uuid4 : ℕ → String) (count : ℕ) (cash fee_rate slippage_rate : Decimal) (currency : String)
    (fails : Bool) (power : Option Decimal)
    → IsTariff fee_rate slippage_rate
    → Agrees uuid4 count currency
        (start cash)
        (new_simulated cash currency fee_rate slippage_rate fails power)
unfolding new_simulated lookup_or lookup contains
new_simulated-Agrees uuid4 count cash fee_rate slippage_rate currency fails power tariff = record {
  cash = refl;
  quantities = refl;
  held = tt;
  listed = tt;
  marked = tt;
  new = λ k later below. record {
    unseen = refl;
    unapplied = record { no_quantity = refl; no_gross = refl; no_fee = refl };
  };
  answered = λ key r found. absurd (lookup-nil key r found);
  home = eq_refl currency;
  tariff = tariff;
}

-- The submissions to a new broker, rebuilt
pub new_simulated-IsRebuilt :
    (uuid4 : ℕ → String) (cash fee_rate slippage_rate : Decimal) (currency : String) (fails : Bool)
    (power : Option Decimal) (intents : List OrderIntent)
    (distinct : AreDistinctIds uuid4 (2 * length intents))
    → IsTariff fee_rate slippage_rate
    → AreOrders intents
    → IsRebuilt uuid4
        (2 * length intents)
        currency
        distinct
        (start cash)
        (submit_each uuid4 intents (new_simulated cash currency fee_rate slippage_rate fails power))
unfolding new_simulated
new_simulated-IsRebuilt uuid4 cash fee_rate slippage_rate currency fails power intents distinct
      tariff orders =
    submit_each-IsRebuilt uuid4 (2 * length intents) currency distinct intents (start cash)
      (new_simulated cash currency fee_rate slippage_rate fails power) orders
      (
        new_simulated-Agrees uuid4 (2 * length intents) cash fee_rate slippage_rate currency fails
            power tariff,
        omega arith,
      )
