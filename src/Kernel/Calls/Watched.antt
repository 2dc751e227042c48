-- ===== src/Kernel/Calls/Watched.antt =====
-- At most one call of the broker for each proposal. The broker is watched: beside its state it keeps the
-- calls that it was given, the latest first.
use project_fifty.Prelude.{
  String, ◌≡◌, refl, ap, ◌⊎◌, inl, inr, true, contains, contains-add_key, Option, none, some, List,
  ◌∷◌,
}
use project_fifty.Outcome.{Result, ok, err}
use project_fifty.Outcome.Action.{Action}
use project_fifty.Outcome.Hoare.{Triple, Ends, Triple-weaken}
use project_fifty.Domain.{
  OrderIntent, ExecutionReport, BrokerOrder, RiskDecision, status_eq, cancelled, unknown,
}
use project_fifty.Settings.{Settings}
use project_fifty.Broker.{BrokerAdapter}
use project_fifty.Kernel.State.{Kernel, note_intent}
use project_fifty.Kernel.Handle.{
  call_submit, call_cancel, settle_order, settle_key, settle_cancel, settle_submission, announce,
}
use project_fifty.Kernel.Calls.Quiet.{
  IsStable, Quiet, Quiet-bind, Quiet-pure, Quiet-raise, Quiet-read, Quiet-choose, emit-Quiet,
  remember-Quiet, enter_safe_mode-Quiet, transition_order-Quiet, record_report-Quiet,
  append_reconciliation-Quiet,
}

pub data BrokerCall : Type 0 where
  submitted : OrderIntent → BrokerCall
  cancelled_order : String → BrokerCall

abbrev pub watched : BrokerAdapter → BrokerAdapter
watched B = record {
  State = List BrokerCall × B.State;
  get_portfolio = λ (calls, b). B.get_portfolio b;
  get_open_orders = λ (calls, b). B.get_open_orders b;
  submit = λ i (calls, b). let (r, b') = B.submit i b in (r, (submitted i ∷ calls, b'));
  cancel = λ id (calls, b). let (r, b') = B.cancel id b in (r, (cancelled_order id ∷ calls, b'));
}

module _ (s : Settings) (B : BrokerAdapter) (calls : List BrokerCall) (key : String) where
  abbrev pub State : Type 0
  State = List BrokerCall × B.State

  -- The calls are these, and the key is known.
  abbrev pub Given : List BrokerCall → List String → State → Type 0
  Given now known b = (b.0 ≡ now) × (contains key known ≡ true)

  pub Given-IsStable : (now : List BrokerCall) → IsStable {S = State} (Given now)
  Given-IsStable now = record {
    grows = λ other known b h. (h.0, rw (contains-add_key key other known, h.1) refl);
  }

  -- One more call than before, or none
  abbrev pub OneMore : (BrokerCall → Type 0) → List String → State → Type 0
  OneMore J known b = Given calls known b ⊎ ((c : BrokerCall) × J c × Given (c ∷ calls) known b)

  module _ (J : BrokerCall → Type 0) where
    -- The methods that follow a call, and those that precede one
    pub after_call :
        {A : Type 0} (c : BrokerCall) {m : Action (Kernel State) A}
        → J c
        → Quiet (Given (c ∷ calls)) (Given-IsStable (c ∷ calls)) m
        → Triple
            (λ k. Given (c ∷ calls) k.memory.known_idempotency_keys k.broker)
            m
            (λ _ k. OneMore J k.memory.known_idempotency_keys k.broker)
            (λ k. OneMore J k.memory.known_idempotency_keys k.broker)
    after_call c j t = Triple-weaken (λ k h. h) (λ a k h. inr (c, j, h)) (λ k h. inr (c, j, h)) t

    pub before_call :
        {A : Type 0} {m : Action (Kernel State) A}
        → Quiet (Given calls) (Given-IsStable calls) m
        → Triple
            (λ k. Given calls k.memory.known_idempotency_keys k.broker)
            m
            (λ _ k. Given calls k.memory.known_idempotency_keys k.broker)
            (λ k. OneMore J k.memory.known_idempotency_keys k.broker)
    before_call t = Triple-weaken (λ k h. h) (λ a k h. h) (λ k h. inl h) t

    -- A call of the broker, in either of its endings
    pub submit-OneMore :
        (i : OrderIntent)
        → J (submitted i)
        → Triple
            (λ k. Given calls k.memory.known_idempotency_keys k.broker)
            (call_submit s (watched B) i)
            (λ _ k. Given (submitted i ∷ calls) k.memory.known_idempotency_keys k.broker)
            (λ k. OneMore J k.memory.known_idempotency_keys k.broker)
    unfolding call_submit
    submit-OneMore i j = record { at = λ k h. called (B.submit i k.broker.1) k h }
      where
        called :
            (r : Result ExecutionReport × B.State) (k : Kernel State)
            → Given calls k.memory.known_idempotency_keys k.broker
            → Ends
                (λ _ k'. Given (submitted i ∷ calls) k'.memory.known_idempotency_keys k'.broker)
                (λ k'. OneMore J k'.memory.known_idempotency_keys k'.broker)
                (r.0, record k { broker = (submitted i ∷ k.broker.0, r.1) })
        called (ok a, b) k h = (ap (◌∷◌ (submitted i)) h.0, h.1)
        called (err e, b) k h = inr (submitted i, j, (ap (◌∷◌ (submitted i)) h.0, h.1))

    pub cancel-OneMore :
        (id : String)
        → J (cancelled_order id)
        → Triple
            (λ k. Given calls k.memory.known_idempotency_keys k.broker)
            (call_cancel s (watched B) id)
            (λ _ k. Given (cancelled_order id ∷ calls) k.memory.known_idempotency_keys k.broker)
            (λ k. OneMore J k.memory.known_idempotency_keys k.broker)
    unfolding call_cancel
    cancel-OneMore id j = record { at = λ k h. called (B.cancel id k.broker.1) k h }
      where
        called :
            (r : Result BrokerOrder × B.State) (k : Kernel State)
            → Given calls k.memory.known_idempotency_keys k.broker
            → Ends
                (λ _ k'.
                  Given (cancelled_order id ∷ calls) k'.memory.known_idempotency_keys k'.broker)
                (λ k'. OneMore J k'.memory.known_idempotency_keys k'.broker)
                (r.0, record k { broker = (cancelled_order id ∷ k.broker.0, r.1) })
        called (ok a, b) k h = (ap (◌∷◌ (cancelled_order id)) h.0, h.1)
        called (err e, b) k h =
            inr (cancelled_order id, j, (ap (◌∷◌ (cancelled_order id)) h.0, h.1))

  module _ (now : List BrokerCall) where
    abbrev pub Calm : {A : Type 0} → Action (Kernel State) A → Type 0
    Calm m = Quiet (Given now) (Given-IsStable now) m

    pub settle_submission-Calm :
        (decision : RiskDecision) (i : OrderIntent) (report : ExecutionReport)
        → Calm (settle_submission s (watched B) decision i report)
    unfolding settle_submission
    settle_submission-Calm decision i report =
        let st = Given-IsStable now in
        Quiet-bind _ st _ _ (record_report-Quiet _ st report) λ _.
          Quiet-bind _ st _ _ (transition_order-Quiet _ st i.intent_id _) λ done.
            Quiet-choose _ st done _ _
              (Quiet-choose _ st (status_eq report.status unknown) _ _ (Quiet-pure _ st _)
                (Quiet-bind _ st _ _ (append_reconciliation-Quiet _ st s) λ _. Quiet-pure _ st _))
              (Quiet-bind _ st _ _ (enter_safe_mode-Quiet _ st) λ _. Quiet-raise _ st _)

    settle_order-Calm : (found : Option String) → Calm (settle_order s (watched B) found)
    unfolding settle_order
    settle_order-Calm none = Quiet-pure _ (Given-IsStable now) tt
    settle_order-Calm (some id) =
        let st = Given-IsStable now in
        Quiet-bind _ st _ _ (transition_order-Quiet _ st id cancelled) λ done.
          Quiet-choose _ st done _ _ (Quiet-pure _ st tt)
            (Quiet-bind _ st _ _ (enter_safe_mode-Quiet _ st) λ _. Quiet-raise _ st _)

    settle_key-Calm : (original : Option String) → Calm (settle_key s (watched B) original)
    unfolding settle_key
    settle_key-Calm none = Quiet-pure _ (Given-IsStable now) tt
    settle_key-Calm (some id) =
        Quiet-bind _ (Given-IsStable now) _ _ (Quiet-read _ (Given-IsStable now) _)
          settle_order-Calm

    pub settle_cancel-Calm : (order : BrokerOrder) → Calm (settle_cancel s (watched B) order)
    unfolding settle_cancel
    settle_cancel-Calm order =
        let st = Given-IsStable now in
        Quiet-bind _ st _ _ (Quiet-read _ st _) λ original.
          Quiet-choose _ st (status_eq order.status cancelled) _ _ (settle_key-Calm original)
            (enter_safe_mode-Quiet _ st)

    pub announce-Calm : (i : OrderIntent) → Calm (announce s (watched B) i)
    unfolding announce note_intent
    announce-Calm i =
        let st = Given-IsStable now in
        Quiet-bind _ st _ _ (remember-Quiet _ st _ (λ m. refl))
          λ _. Quiet-bind _ st _ _ (emit-Quiet _ st _) λ _. emit-Quiet _ st _
