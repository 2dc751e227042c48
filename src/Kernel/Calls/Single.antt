-- ===== src/Kernel/Calls/Single.antt =====
-- After an approval the broker is called at most once: with an order, or with a cancellation.
use project_fifty.Prelude.{String, ◌≡◌, refl, inl, true, false, Option, none, some, List, ◌∷◌}
use project_fifty.Outcome.Action.{Action}
use project_fifty.Outcome.Hoare.{Triple, Triple-bind, Triple-pure, Triple-choose, Triple-weaken}
use project_fifty.Domain.{
  TradeAction, TradeProposal, OrderIntent, RiskDecision, validated, submitting,
}
use project_fifty.Settings.{Settings}
use project_fifty.Broker.{BrokerAdapter}
use project_fifty.Risk.{is_passive, is_cancel}
use project_fifty.Kernel.State.{Kernel}
use project_fifty.Kernel.Handle.{cancel_target, handle_cancel, place, trade, carry_out}
use project_fifty.Kernel.Calls.Quiet.{
  Quiet, Quiet-bind, Quiet-pure, Quiet-raise, emit-Quiet, transition_order-Quiet,
  record_report-Quiet, state_transition_failure-Quiet, append_reconciliation-Quiet,
}
use project_fifty.Kernel.Calls.Watched.{
  BrokerCall, submitted, cancelled_order, watched, State, Given, Given-IsStable, OneMore,
  after_call, before_call, submit-OneMore, cancel-OneMore, settle_submission-Calm,
  settle_cancel-Calm, announce-Calm,
}

module _ (s : Settings) (B : BrokerAdapter) (calls : List BrokerCall) (key : String)
    (J : BrokerCall → Type 0) where
  abbrev pub MakesOne : {A : Type 0} → Action (Kernel (State s B calls key)) A → Type 0
  MakesOne m =
      Triple (λ k. Given s B calls key calls k.memory.known_idempotency_keys k.broker) m
        (λ _ k. OneMore s B calls key J k.memory.known_idempotency_keys k.broker)
        (λ k. OneMore s B calls key J k.memory.known_idempotency_keys k.broker)

  before :
      {A : Type 0} {m : Action (Kernel (State s B calls key)) A}
      → Quiet (Given s B calls key calls) (Given-IsStable s B calls key calls) m
      → MakesOne m
  before t = Triple-weaken (λ k h. h) (λ a k h. inl h) (λ k h. h) (before_call s B calls key J t)

  place-MakesOne :
      (decision : RiskDecision) (i : OrderIntent)
      → J (submitted i)
      → MakesOne (place s (watched B) decision i)
  unfolding place
  place-MakesOne decision i j =
      let st = Given-IsStable s B calls key calls in
      Triple-bind _ _ _ (before_call s B calls key J (announce-Calm s B calls key calls i)) λ _.
        Triple-bind _ _ _
          (before_call s B calls key J (transition_order-Quiet _ st i.intent_id validated))
          λ is_valid.
            Triple-choose is_valid _ _
              (λ _.
                Triple-bind _ _ _
                  (before_call s B calls key J (transition_order-Quiet _ st i.intent_id submitting))
                  λ is_submitting.
                    Triple-choose is_submitting _ _
                      (λ _. Triple-bind _ _ _ (before_call s B calls key J (emit-Quiet _ st _)) λ _.
                        Triple-bind _ _ _ (submit-OneMore s B calls key J i j) λ report.
                          after_call s B calls key J (submitted i) j (
                            settle_submission-Calm s B calls key (submitted i ∷ calls) decision i
                              report))
                      (λ _. before (state_transition_failure-Quiet _ st)))
              (λ _. before (state_transition_failure-Quiet _ st))

  trade-MakesOne :
      (intent : Option OrderIntent) (decision : RiskDecision)
      → ((i : OrderIntent) → intent ≡ some i → J (submitted i))
      → MakesOne (trade s (watched B) intent decision)
  unfolding trade
  trade-MakesOne none decision j =
      let st = Given-IsStable s B calls key calls in
      before (Quiet-bind _ st _ _ (emit-Quiet _ st _) λ _. Quiet-pure _ st _)
  trade-MakesOne (some i) decision j = place-MakesOne decision i (j i refl)

  cancel_target-MakesOne :
      (p : TradeProposal) (target : Option String)
      → ((id : String) → target ≡ some id → J (cancelled_order id))
      → MakesOne (cancel_target s (watched B) p target)
  unfolding cancel_target
  cancel_target-MakesOne p none j = before (Quiet-raise _ (Given-IsStable s B calls key calls) _)
  cancel_target-MakesOne p (some id) j =
      let st = Given-IsStable s B calls key calls in
      let st' = Given-IsStable s B calls key (cancelled_order id ∷ calls) in
      Triple-bind _ _ _ (before_call s B calls key J (emit-Quiet _ st _)) λ _.
        Triple-bind _ _ _ (cancel-OneMore s B calls key J id (j id refl)) λ order.
          after_call s B calls key J (cancelled_order id) (j id refl) (
            Quiet-bind _ st' _ _ (emit-Quiet _ st' _) λ _.
              Quiet-bind _ st' _ _
                (settle_cancel-Calm s B calls key (cancelled_order id ∷ calls) order)
                λ _. Quiet-bind _ st' _ _ (record_report-Quiet _ st' _) λ _.
                  Quiet-bind _ st' _ _ (append_reconciliation-Quiet _ st' s)
                    λ _. Quiet-pure _ st' _)

  pub carry_out-MakesOne :
      (action : TradeAction) (p : TradeProposal) (intent : Option OrderIntent)
      (decision : RiskDecision)
      → (is_passive action ≡ false → (i : OrderIntent) → intent ≡ some i → J (submitted i))
      → (is_cancel action ≡ true
          → (id : String) → p.cancel_order_id ≡ some id
          → J (cancelled_order id))
      → MakesOne (carry_out s (watched B) action p intent decision)
  unfolding carry_out handle_cancel is_passive is_cancel
  carry_out-MakesOne TradeAction.hold p intent decision j c =
      before (Quiet-pure _ (Given-IsStable s B calls key calls) _)
  carry_out-MakesOne TradeAction.cancel p intent decision j c =
      let done = cancel_target-MakesOne p p.cancel_order_id (c refl) in
      Triple-bind _ _ _ done λ _. Triple-pure _ (λ k h. h)
  carry_out-MakesOne _ p intent decision j c = trade-MakesOne intent decision (j refl)
