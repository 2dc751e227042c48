-- ===== src/Kernel/Calls/Authority.antt =====
-- What a proposal may make the broker do.
use project_fifty.Prelude.{
  ℕ, String, ◌≡◌, refl, ap, subst, sym, ◌∙◌, ◌⊎◌, inl, inr, Bool, true, false, contains,
  contains-add_key_self, Option, none, some, List, [], ◌∷◌, ◌++◌,
}
use project_fifty.Outcome.{Result, ok, err}
use project_fifty.Outcome.Action.{Action, ◌>>=◌, choose, read, pure, go_on}
use project_fifty.Outcome.Hoare.{Ends}
use project_fifty.Decimal.{Decimal}
use project_fifty.Domain.{TradeProposal, OrderIntent, ExecutionReport, RiskDecision, PortfolioState}
use project_fifty.Settings.{Settings}
use project_fifty.Broker.{BrokerAdapter}
use project_fifty.Control.{ControlState}
use project_fifty.Ledger.Events.{Event}
use project_fifty.Risk.{is_cancel}
use project_fifty.Risk.Authority.{IsAdmitted, IsCovered, evaluate-IsAdmitted, evaluate-IsCovered}
use project_fifty.Kernel.State.{Memory, Kernel, know_key, note_cost}
use project_fifty.Kernel.Capital.{
  authorized_portfolio, available_authorized_cash, position_quantity,
}
use project_fifty.Kernel.Assess.{IsAssessed, assess-cases, derive_intent-IsOrderFor}
use project_fifty.Kernel.Handle.{assess, emit, remember, carry_out, handle_proposal}
use project_fifty.Kernel.Calls.Watched.{BrokerCall, submitted, cancelled_order, watched, OneMore}
use project_fifty.Kernel.Calls.Single.{MakesOne, carry_out-MakesOne}

-- What stands behind a call of the broker: the risk engine's approval of this proposal by the fields
-- and the control state of the moment. An order is covered, for the cash and the position that
-- those fields give; a cancellation names the order that the proposal names.
pub data IsAuthorised (s : Settings) (p : TradeProposal) (now : ℕ) (m : Memory)
    (control : ControlState) : BrokerCall → Type 0 where
  authorised_order :
      (i : OrderIntent) (cash : Decimal) (portfolio : PortfolioState)
      → IsAdmitted s p control m.known_idempotency_keys now
      → i.idempotency_key ≡ p.idempotency_key
      → authorized_portfolio s m.reports ≡ ok portfolio
      → available_authorized_cash s (note_cost p m) ≡ ok cash
      → IsCovered s p i cash (position_quantity p.symbol portfolio)
      → IsAuthorised s p now m control (submitted i)
  authorised_cancel :
      (id : String)
      → IsAdmitted s p control m.known_idempotency_keys now
      → is_cancel p.action ≡ true
      → p.cancel_order_id ≡ some id
      → IsAuthorised s p now m control (cancelled_order id)

module _ (s : Settings) (B : BrokerAdapter) (uuid : String) (now : ℕ) (p : TradeProposal) where
  -- The broker was left alone, or was called once, on authority, and the key is known from then on.
  abbrev pub IsUsed :
      Kernel (List BrokerCall × B.State) → Kernel (List BrokerCall × B.State) → Type 0
  IsUsed k k' =
      (k'.broker.0 ≡ k.broker.0)
      ⊎ ((c : BrokerCall) × IsAuthorised s p now k.memory k.control c
          × (k'.broker.0 ≡ c ∷ k.broker.0)
          × (contains p.idempotency_key k'.memory.known_idempotency_keys ≡ true))

  approved-MakesOne :
      (k : Kernel (List BrokerCall × B.State)) (assessed : Option OrderIntent × RiskDecision)
      → IsAssessed s uuid now p (note_cost p k.memory) k.control assessed
      → assessed.1.approved ≡ true
      → MakesOne s B k.broker.0 p.idempotency_key
          (IsAuthorised s p now k.memory k.control)
          (carry_out s (watched B) p.action p assessed.0 assessed.1)
  unfolding note_cost
  approved-MakesOne k assessed a granted =
      let qty = position_quantity p.symbol a.portfolio in
      let known = k.memory.known_idempotency_keys in
      let approved = ap (λ (d : RiskDecision). d.approved) (sym a.decided) ∙ granted in
      let admitted = evaluate-IsAdmitted s p assessed.0 a.cash qty k.control known now approved in
      carry_out-MakesOne s B k.broker.0 p.idempotency_key (IsAuthorised s p now k.memory k.control)
        p.action p assessed.0 assessed.1
        (λ active i e.
          let (j, same, covered) =
            evaluate-IsCovered s p assessed.0 a.cash qty k.control known now active approved in
          let j_is_i : j ≡ i = cc in
          let (_, order) =
            derive_intent-IsOrderFor s uuid p k.memory.reports i (a.derived ∙ ap ok e) in
          authorised_order i a.cash a.portfolio admitted order.key a.authorized a.available
            (subst (λ x. IsCovered s p x a.cash qty) j_is_i covered))
        (λ is_cancelling id e. authorised_cancel id admitted is_cancelling e)

  OneMore-IsUsed :
      {A : Type 0} (k : Kernel (List BrokerCall × B.State))
      (r : Result A × Kernel (List BrokerCall × B.State))
      → Ends
          (λ _ k'.
            OneMore s B k.broker.0 p.idempotency_key
              (IsAuthorised s p now k.memory k.control)
              k'.memory.known_idempotency_keys
              k'.broker)
          (λ k'.
            OneMore s B k.broker.0 p.idempotency_key
              (IsAuthorised s p now k.memory k.control)
              k'.memory.known_idempotency_keys
              k'.broker)
          r
      → IsUsed k r.1
  OneMore-IsUsed k (ok a, k') (inl h) = inl h.0
  OneMore-IsUsed k (ok a, k') (inr (c, j, h)) = inr (c, j, h.0, h.1)
  OneMore-IsUsed k (err e, k') (inl h) = inl h.0
  OneMore-IsUsed k (err e, k') (inr (c, j, h)) = inr (c, j, h.0, h.1)

  -- From the decision on, in a state where the broker is as it was
  decided-IsUsed :
      (k k2 : Kernel (List BrokerCall × B.State)) (assessed : Option OrderIntent × RiskDecision)
      (approved : Bool)
      → k2.broker ≡ k.broker
      → IsAssessed s uuid now p (note_cost p k.memory) k.control assessed
      → assessed.1.approved ≡ approved
      → IsUsed k
          (choose approved
            (remember (know_key p.idempotency_key) >>= λ _.
              carry_out s (watched B) p.action p assessed.0 assessed.1)
            (pure (assessed.1, none))
            k2).1
  unfolding remember know_key pure choose ◌>>=◌
  decided-IsUsed k k2 assessed true same a granted =
      let k3 : Kernel (List BrokerCall × B.State) = record k2 {
        memory = know_key p.idempotency_key k2.memory;
      } in
      OneMore-IsUsed k (carry_out s (watched B) p.action p assessed.0 assessed.1 k3) (
        (approved-MakesOne k assessed a granted).at k3 (
          ap (λ (b : List BrokerCall × B.State). b.0) same,
          contains-add_key_self p.idempotency_key k2.memory.known_idempotency_keys,
        ))
  decided-IsUsed k k2 assessed false same a denied =
      inl (ap (λ (b : List BrokerCall × B.State). b.0) same)

  -- What follows the risk engine's decision
  abbrev follow :
      Option OrderIntent × RiskDecision
      → Action (Kernel (List BrokerCall × B.State)) (RiskDecision × Option ExecutionReport)
  follow assessed = emit (Event.risk_decision assessed.1 (some p.idempotency_key)) >>= λ _.
      choose assessed.1.approved
        (remember (know_key p.idempotency_key) >>= λ _.
          carry_out s (watched B) p.action p assessed.0 assessed.1)
        (pure (assessed.1, none))

  follow-IsUsed :
      (k k1 : Kernel (List BrokerCall × B.State)) (r : Result (Option OrderIntent × RiskDecision))
      → k1.broker ≡ k.broker
      → assess s uuid now p (note_cost p k.memory) k.control ≡ r
      → IsUsed k (go_on follow (r, k1)).1
  unfolding emit ◌>>=◌
  follow-IsUsed k k1 (ok assessed) same e =
      decided-IsUsed k
        (record k1 {
          ledger = k1.ledger ++ Event.risk_decision assessed.1 (some p.idempotency_key) ∷ [];
        })
        assessed assessed.1.approved same
        (assess-cases s uuid now p (note_cost p k.memory) k.control assessed e) refl
  follow-IsUsed k k1 (err x) same e = inl (ap (λ (b : List BrokerCall × B.State). b.0) same)

  -- A proposal makes the broker do at most one thing, and only on the risk engine's approval: after
  -- any call of `handle_proposal`, returned or raised, the broker has been given no call, or one
  -- that is authorised, and then the proposal's key is known.
  pub handle_proposal-IsUsed :
      (k : Kernel (List BrokerCall × B.State))
      → IsUsed k (handle_proposal s (watched B) uuid now p k).1
  unfolding handle_proposal emit remember read ◌>>=◌
  handle_proposal-IsUsed k =
      follow-IsUsed k
        (record k {
          memory = note_cost p k.memory;
          ledger = k.ledger ++ Event.proposal_created p ∷ [];
        })
        (assess s uuid now p (note_cost p k.memory) k.control) refl refl
