-- ===== src/Tests/Orders.antt =====
-- Examples for the risk engine, the state machine, the decimals and the replay of reports.
use project_fifty.Prelude.{◌≡◌, ◌≤◌, refl, some, true, contains, List, [], ◌∷◌}
use project_fifty.Outcome.{ok}
use project_fifty.Decimal.{lt, eq, add, mul, div, sub, one, zero_dec}
use project_fifty.Decimal.Sign.{IsNonneg, sub-IsNonneg}
use project_fifty.Domain.{
  OrderSide, OrderIntent, ExperimentMode, ExecutionReport, PortfolioState, created, validated,
  submitting,
}
use project_fifty.Control.{ControlState}
use project_fifty.StateMachine.{transition}
use project_fifty.StateMachine.Reach.{Reach, here, next, step, phase, Reach-phase}
use project_fifty.Risk.{is_passive, evaluate}
use project_fifty.Risk.Authority.{IsAdmitted, IsCovered, evaluate-IsAdmitted, evaluate-IsCovered}
use project_fifty.Reconcile.{replay_events}
use project_fifty.Reconcile.Duplicates.{distinct, replay_events-distinct}
use project_fifty.Reconcile.LongOnly.{AreHeld, replay_events-AreHeld}
use project_fifty.Tests.Data.{settings, control, buy_two, intent, units, fill}

sub_three : IsNonneg (sub (units 3) one)
sub_three = sub-IsNonneg (units 3) one (unfold lt in refl)

sent : Reach created submitting
unfolding transition
sent = next {t = validated} (next here (step refl)) (step refl)

Reach-phase_example : phase created ≤ phase submitting
Reach-phase_example = Reach-phase created submitting sent

granted :
    (evaluate settings buy_two
      (some (intent OrderSide.buy 2))
      (units 900)
      zero_dec
      control
      []
      2000).approved
    ≡ true
unfolding evaluate lt contains eq add
granted = refl

evaluate-IsAdmitted_example : IsAdmitted settings buy_two control [] 2000
evaluate-IsAdmitted_example =
    evaluate-IsAdmitted settings buy_two (some (intent OrderSide.buy 2)) (units 900) zero_dec
      control [] 2000 granted

evaluate-IsCovered_example :
    (i : OrderIntent) × (some (intent OrderSide.buy 2) ≡ some i)
    × IsCovered settings buy_two i (units 900) zero_dec
evaluate-IsCovered_example =
    evaluate-IsCovered settings buy_two (some (intent OrderSide.buy 2)) (units 900) zero_dec control
      [] 2000 (unfold is_passive in refl) granted

abbrev dead_control : ControlState
dead_control = record control { kill_switch_active = true; mode = ExperimentMode.dead }

-- An order that is filled in two steps, the first of which is reported twice, and then sold.
abbrev reports : List ExecutionReport
reports =
    fill "r1" OrderSide.buy "o1" 1
    ∷ fill "r1" OrderSide.buy "o1" 1
    ∷ fill "r2" OrderSide.buy "o1" 2
    ∷ fill "r3" OrderSide.sell "o2" 2
    ∷ []

replay_events-distinct_example :
    replay_events (units 100) reports (("TEST", units 10) ∷ []) "USD"
    ≡ replay_events (units 100) (distinct [] reports) (("TEST", units 10) ∷ []) "USD"
replay_events-distinct_example =
    replay_events-distinct (units 100) reports (("TEST", units 10) ∷ []) "USD"

abbrev flat : PortfolioState
flat = record { cash = units 98; positions = []; nav = units 98; currency = "USD" }

replayed : replay_events (units 100) reports (("TEST", units 10) ∷ []) "USD" ≡ ok flat
unfolding replay_events lt mul sub div add eq
replayed = refl

replay_events-AreHeld_example : IsNonneg flat.cash × IsNonneg flat.nav × AreHeld flat.positions
replay_events-AreHeld_example =
    replay_events-AreHeld (units 100) reports (("TEST", units 10) ∷ []) "USD" flat replayed
