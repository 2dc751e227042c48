-- ===== src/Broker/Simulated/Portfolio.antt =====
-- The portfolio of the simulated broker and the one that the reconciler rebuilds from its reports.
use project_fifty.Prelude.{
  ℕ, ◌*◌, String, ◌≡◌, refl, ap, Bool, Bool-cases, inl, inr, eq_iff, Option, List, [], ◌∷◌, some,
}
use project_fifty.Prelude.Dict.{Dict, lookup, lookup_or}
use project_fifty.Prelude.Seq.{length}
use project_fifty.Outcome.{Result, ok, err}
use project_fifty.Decimal.{Decimal, lt, add, mul, zero_dec}
use project_fifty.Domain.{OrderIntent, Position, PortfolioState, new_portfolio, non_negative}
use project_fifty.Reconcile.{add_positions, replay_events}
use project_fifty.Reconcile.Quantities.{quantities_of}
use project_fifty.Reconcile.Marks.{AreMarked}
use project_fifty.Broker.Simulated.{new_simulated, mark_positions, get_portfolio}
use project_fifty.Broker.Simulated.Prices.{IsTariff}
use project_fifty.Broker.Simulated.Identifiers.{AreDistinctIds}
use project_fifty.Broker.Simulated.Rebuild.{submit_each, AreOrders, new_simulated-IsRebuilt}

-- A portfolio without the average prices: its cash, its net asset value, the quantities and the
-- currency
abbrev pub Summary : Type 0
Summary = Decimal × Decimal × Dict Decimal × String

abbrev pub without_prices : Result PortfolioState → Result Summary
without_prices (ok p) = ok (p.cash, p.nav, quantities_of p.positions, p.currency)
without_prices (err raised) = err raised

marked-lookup_or :
    (symbol : String) (other price : Decimal) (marks : Dict Decimal)
    → lookup symbol marks ≡ some price
    → lookup_or other symbol marks ≡ price
unfolding lookup_or
marked-lookup_or symbol other price marks h = rw (h, lookup_or) refl

-- Both net asset values are sums in one order.
add_positions-mark_positions :
    (d d' : Dict Position) (marks : Dict Decimal) (nav : Decimal)
    → quantities_of d ≡ quantities_of d'
    → AreMarked d' marks
    → add_positions d marks nav ≡ ok (mark_positions d' marks nav)
unfolding add_positions mark_positions
add_positions-mark_positions [] [] marks nav h k = refl
add_positions-mark_positions [] (e ∷ d') marks nav h k = cc
add_positions-mark_positions (e ∷ d) [] marks nav h k = cc
add_positions-mark_positions ((j, p) ∷ d) ((j', p') ∷ d') marks nav h k =
    let ((price, marked), rest) = k in
    let entry : ◌≡◌ {A = String × Decimal} (j, p.quantity) (j', p'.quantity) = cc in
    let symbol = ap (λ (x : String × Decimal). x.0) entry in
    let size = ap (λ (x : String × Decimal). x.1) entry in
    let later : quantities_of d ≡ quantities_of d' = cc in
    rw (symbol, marked, size, marked-lookup_or j' p'.average_price price marks marked)
      (add_positions-mark_positions d d' marks (add nav (mul p'.quantity price)) later rest)

new_portfolio-without_prices :
    (cash nav : Decimal) (d d' : Dict Position) (currency : String)
    → quantities_of d ≡ quantities_of d'
    → without_prices (new_portfolio cash d nav currency)
      ≡ without_prices (new_portfolio cash d' nav currency)
unfolding new_portfolio non_negative
new_portfolio-without_prices cash nav d d' currency h = elim (Bool-cases (lt cash zero_dec)) [
  | inl short ↦ rw short refl
  | inr high ↦ elim (Bool-cases (lt nav zero_dec)) [
    | inl low ↦ rw (high, low) refl
    | inr sound ↦ rw (high, sound) (λ j. ok (cash, nav, h j, currency))
  ]
]

-- The reconciler refines the simulated broker: from a new broker with rates that are not negative
-- and a slippage of at most one, after any list of orders (a positive quantity of at most 28
-- digits, at a reference price that is not negative) of which some may be refused or repeat a
-- key, and where no two identifiers drawn for them are the same, the reports that were returned
-- are replayed, with the broker's last prices as the marks, to the broker's own portfolio: its
-- cash, its net asset value and its quantity of every symbol, or the error of both.
pub replay_events-get_portfolio :
    (uuid4 : ℕ → String) (cash fee_rate slippage_rate : Decimal) (currency : String) (fails : Bool)
    (power : Option Decimal) (intents : List OrderIntent)
    → AreDistinctIds uuid4 (2 * length intents)
    → IsTariff fee_rate slippage_rate
    → AreOrders intents
    → let run =
        submit_each uuid4 intents
          (new_simulated cash currency fee_rate slippage_rate fails power) in
      without_prices (replay_events cash run.0 run.1.last_price currency)
      ≡ without_prices (get_portfolio run.1)
unfolding replay_events get_portfolio
replay_events-get_portfolio uuid4 cash fee_rate slippage_rate currency fails power intents distinct
      tariff orders =
    let (_, b) =
      submit_each uuid4 intents (new_simulated cash currency fee_rate slippage_rate fails power) in
    let (last, replayed, a) =
      new_simulated-IsRebuilt uuid4 cash fee_rate slippage_rate currency fails power intents
        distinct tariff orders in
    let summed =
      add_positions-mark_positions last.positions b.positions b.last_price last.cash a.quantities
        a.marked in
    rw (replayed, summed, a.cash, (eq_iff b.currency currency).0 a.home)
      (new_portfolio-without_prices b.cash (mark_positions b.positions b.last_price b.cash)
        last.positions b.positions currency a.quantities)
