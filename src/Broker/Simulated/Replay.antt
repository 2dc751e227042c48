-- ===== src/Broker/Simulated/Replay.antt =====
-- The reports of the simulated broker, replayed by the reconciler.
use project_fifty.Prelude.{
  ℕ, ◌+◌, ◌≤◌, ◌<◌, String, ◌≡◌, refl, true, false, arith, str_eq, contains, some, List, ◌∷◌,
}
use project_fifty.Prelude.Dict.{Dict, lookup, insert}
use project_fifty.Outcome.{ok}
use project_fifty.Decimal.{zero_dec}
use project_fifty.Domain.{OrderIntent, ExecutionReport, Position, unknown}
use project_fifty.StateMachine.{status_in}
use project_fifty.Reconcile.{Replay, is_fill, apply_report, replay_reports, fill_positions}
use project_fifty.Reconcile.Inversion.{mark_seen}
use project_fifty.Reconcile.LongOnly.{AreHeld, apply_report-AreHeld}
use project_fifty.Reconcile.Duplicates.{replay_reports-old}
use project_fifty.Reconcile.Quantities.{quantities_of}
use project_fifty.Reconcile.FirstFill.{IsUnapplied, after_report, apply_report-first}
use project_fifty.Broker.Simulated.{Simulated, Fill, no_fill, report_of, order_of, set_mark_price}
use project_fifty.Broker.Simulated.Settle.{fill_report, after_fill}
use project_fifty.Broker.Simulated.Prices.{IsOrder, IsTariff, IsPriced}
use project_fifty.Broker.Simulated.Fills.{settled_with}
use project_fifty.Reconcile.Marks.{AreMarked}
use project_fifty.Broker.Simulated.Identifiers.{
  AreDistinctIds, replayed_new, mark_seen-IsUnapplied, answered_later, unseen_later,
  after_report-IsUnapplied,
}

module _ (uuid4 : ℕ → String) (count : ℕ) (currency : String) where
  -- An identifier that the reconciler has not met
  pub record IsNew (id : String) (st : Replay) : Type 0 where
    pub unseen : contains id st.seen_reports ≡ false
    pub unapplied : IsUnapplied id st

  -- A state of the replay and a state of the broker that issued the reports
  pub record Agrees (st : Replay) (b : Simulated) : Type 0 where
    pub cash : st.cash ≡ b.cash
    pub quantities : quantities_of st.positions ≡ quantities_of b.positions
    pub held : AreHeld st.positions
    pub listed : AreHeld b.positions
    pub marked : AreMarked b.positions b.last_price
    pub new : (k : ℕ) → b.drawn ≤ k → k < count → IsNew (uuid4 k) st
    pub answered :
        (key : String) (r : ExecutionReport)
        → lookup key b.orders_by_key ≡ some r
        → contains r.report_id st.seen_reports ≡ true
    pub home : str_eq b.currency currency ≡ true
    pub tariff : IsTariff b.fee_rate b.slippage_rate

  -- The reconciler follows the broker over one report.
  pub record Follows (st : Replay) (b : Simulated) (r : ExecutionReport) (b' : Simulated)
      : Type 0 where
    pub next : Replay
    pub replayed :
        (rest : List ExecutionReport)
        → replay_reports currency (r ∷ rest) st ≡ replay_reports currency rest next
    pub agrees : Agrees next b'
    pub drawn : b'.drawn ≤ b.drawn + 2

  module _ (distinct : AreDistinctIds uuid4 count) where
    pub submit_again-Follows :
        (st : Replay) (b : Simulated) (key : String) (r : ExecutionReport)
        → Agrees st b
        → lookup key b.orders_by_key ≡ some r
        → Follows st b r b
    submit_again-Follows st b key r a old = record {
      next = st;
      replayed = λ rest. replay_reports-old currency r rest st (a.answered key r old);
      agrees = a;
      drawn = omega arith;
    }

    -- The report of an order whose fate is not known, and the state after it
    abbrev unknown_report : OrderIntent → Simulated → ExecutionReport
    unknown_report i b =
        report_of (uuid4 (b.drawn + 1)) (uuid4 b.drawn) b.currency i unknown zero_dec (no_fill i)

    abbrev pub after_unknown : OrderIntent → Simulated → Simulated
    after_unknown i b = record b {
      broker_orders = insert (uuid4 b.drawn) (order_of (uuid4 b.drawn) i unknown) b.broker_orders;
      orders_by_key = insert i.idempotency_key (unknown_report i b) b.orders_by_key;
      drawn = b.drawn + 2;
    }

    pub after_unknown-Follows :
        (i : OrderIntent) (st : Replay) (b : Simulated)
        → Agrees st b
        → b.drawn + 2 ≤ count
        → Follows st b (unknown_report i b) (after_unknown i b)
    unfolding apply_report is_fill status_in
    after_unknown-Follows i st b a enough =
        let r = unknown_report i b in
        let unseen = (a.new (b.drawn + 1) (omega arith) (omega arith)).unseen in
        record {
          next = mark_seen r st;
          replayed =
              λ rest. replayed_new currency r st (mark_seen r st) rest unseen (rw a.home refl);
          agrees = record {
            cash = a.cash;
            quantities = a.quantities;
            held = a.held;
            listed = a.listed;
            marked = a.marked;
            new = λ k later below.
                let before = a.new k (omega arith) below in
                record {
                  unseen =
                      unseen_later uuid4 count distinct b.drawn k st.seen_reports later below
                        before.unseen;
                  unapplied = mark_seen-IsUnapplied (uuid4 k) r st before.unapplied;
                };
            answered =
                answered_later i.idempotency_key r b.orders_by_key st.seen_reports a.answered;
            home = a.home;
            tariff = a.tariff;
          };
          drawn = omega arith;
        }

    -- The state after a fill that left the positions so
    abbrev pub filled_with : OrderIntent → Fill → Dict Position → Simulated → Simulated
    filled_with i f positions b = after_fill uuid4 i f (settled_with i f positions b)

    pub filled_with-Follows :
        (i : OrderIntent) (f : Fill) (st : Replay) (b : Simulated) (new positions : Dict Position)
        → Agrees st b
        → b.drawn + 2 ≤ count
        → IsOrder i
        → IsPriced i f
        → fill_positions i.side i.symbol i.quantity f.notional st.positions ≡ ok new
        → quantities_of new ≡ quantities_of positions
        → AreHeld positions
        → AreMarked positions (insert i.symbol f.price b.last_price)
        → Follows st b (fill_report uuid4 i f b) (filled_with i f positions b)
    unfolding is_fill status_in set_mark_price
    filled_with-Follows i f st b new positions a enough o p taken alike listed marked =
        let r = fill_report uuid4 i f b in
        let unseen = (a.new (b.drawn + 1) (omega arith) (omega arith)).unseen in
        let applied =
          apply_report-first currency r st new a.home refl
            (a.new b.drawn (omega arith) (omega arith)).unapplied
            (record {
              sized = o.sized;
              rounded = o.rounded;
              priced = p.price;
              paid = p.fee;
              paid_rounded = p.fee_rounded;
            })
            (rw p.notional taken) in
        record {
          next = after_report r new st;
          replayed = λ rest. replayed_new currency r st (after_report r new st) rest unseen applied;
          agrees = record {
            cash = rw (p.notional, a.cash) refl;
            quantities = alike;
            held = apply_report-AreHeld currency r st (after_report r new st) applied a.held;
            listed = listed;
            marked = marked;
            new = λ k later below.
                let before = a.new k (omega arith) below in
                record {
                  unseen =
                      unseen_later uuid4 count distinct b.drawn k st.seen_reports later below
                        before.unseen;
                  unapplied =
                      after_report-IsUnapplied uuid4 count distinct b.drawn k r new st refl later
                        below before.unapplied;
                };
            answered =
                answered_later i.idempotency_key r b.orders_by_key st.seen_reports a.answered;
            home = a.home;
            tariff = a.tariff;
          };
          drawn = omega arith;
        }
