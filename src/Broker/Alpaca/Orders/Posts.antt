-- ===== src/Broker/Alpaca/Orders/Posts.antt =====
-- A submission sends at most one order, that of its intent, and reports under the intent's key.
use project_fifty.Broker.Alpaca.Orders.{
  Request, Client, OrderPayload, check_position, raise_for_status, Response, get_object, lift,
  get_order_by_client_order_id, settle_post, get_position_quantity, recover, submit_order, send,
  submit_unseen, payload_of, resume, catch_timeout,
}
use project_fifty.Prelude.{
  String, ◌≡◌, ◌⊎◌, refl, subst, sym, ap, inl, inr, Bool, true, false, ◌==◌, Option, none, some,
  List, [], ◌∷◌, arith,
}
use project_fifty.Outcome.{Error, Result, ok, err}
use project_fifty.Outcome.Action.{Action, pure, ◌>>=◌}
use project_fifty.Outcome.Hoare.{
  Triple, Ends, Triple-bind, Triple-pure, Triple-read, Triple-choose, Triple-weaken,
}
use project_fifty.Decimal.{Decimal}
use project_fifty.Domain.{OrderIntent, ExecutionReport, is_buy}
use project_fifty.Broker.Alpaca.Replies.{Format}

-- A client that keeps its requests, the latest first
abbrev pub logged : Client → Client
logged C = record {
  State = List Request × C.State;
  request = λ q (log, s). let (r, s') = C.request q s in (r, (q ∷ log, s'));
  raises = C.raises;
}

-- The new orders among the requests
abbrev pub posts : List Request → List OrderPayload
posts [] = []
posts (Request.post_order payload ∷ log) = payload ∷ posts log
posts (_ ∷ log) = posts log

abbrev pub is_post : Request → Bool
is_post (Request.post_order _) = true
is_post _ = false

posts-cons : (q : Request) (log : List Request) → is_post q ≡ false → posts (q ∷ log) ≡ posts log
posts-cons (Request.post_order payload) log h = absurd (ground arith)
posts-cons (Request.account) log h = refl
posts-cons (Request.all_positions) log h = refl
posts-cons (Request.open_orders) log h = refl
posts-cons (Request.one_asset _) log h = refl
posts-cons (Request.one_position _) log h = refl
posts-cons (Request.one_order _) log h = refl
posts-cons (Request.by_client_order_id _) log h = refl
posts-cons (Request.delete_order _) log h = refl

module _ (f : Format) (C : Client) (P : List OrderPayload → Type 0) where
  -- A statement about the orders that were sent
  abbrev pub Sent : List Request × C.State → Type 0
  Sent s = P (posts s.0)

  abbrev pub Silent : {A : Type 0} → Action (List Request × C.State) A → Type 0
  Silent m = Triple Sent m (λ _. Sent) Sent

  request-Silent : (q : Request) → is_post q ≡ false → Silent ((logged C).request q)
  request-Silent q h = record {
    at = λ s k. ended q s (C.request q s.1).0 (subst P (sym (posts-cons q s.0 h)) k);
  }
    where
      ended :
          (q : Request) (s : List Request × C.State) (r : Result Response)
          → Sent (q ∷ s.0, s.1)
          → Ends (λ (_ : Response). Sent) Sent (r, (q ∷ s.0, (C.request q s.1).1))
      ended q s (ok response) k = k
      ended q s (err e) k = k

  lift-Silent : {A : Type 0} (r : Result A) → Silent (lift f (logged C) r)
  lift-Silent r = Triple-read _ (λ s a e k. k) (λ s k. k)

  pure-Silent : {A : Type 0} (a : A) → Silent (pure a)
  pure-Silent a = Triple-pure a (λ s k. k)

  bind-Silent :
      {A B : Type 0} (m : Action (List Request × C.State) A)
      (g : A → Action (List Request × C.State) B)
      → Silent m
      → ((a : A) → Silent (g a))
      → Silent (m >>= g)
  bind-Silent m g first rest = Triple-bind m g (λ _. Sent) first rest

  raise_for_status-Silent : (response : Response) → Silent (raise_for_status f (logged C) response)
  unfolding raise_for_status
  raise_for_status-Silent response = lift-Silent _

  get_object-Silent : (q : Request) → is_post q ≡ false → Silent (get_object f (logged C) q)
  unfolding get_object
  get_object-Silent q h =
      bind-Silent _ _ (request-Silent q h)
        λ response. bind-Silent _ _ (raise_for_status-Silent response) λ _. lift-Silent _

  lookup-Silent :
      (key : String) (reference_price : Decimal)
      → Silent (get_order_by_client_order_id f (logged C) key reference_price)
  unfolding get_order_by_client_order_id
  lookup-Silent key reference_price = bind-Silent _ _ (request-Silent _ refl) λ response.
      Triple-choose (response.status_code == 404) _ _ (λ _. pure-Silent none)
        (λ _. bind-Silent _ _ (raise_for_status-Silent response) λ _.
          bind-Silent _ _ (lift-Silent _)
            λ found. bind-Silent _ _ (lift-Silent _) λ report. pure-Silent (some report))

  check_position-Silent : (i : OrderIntent) → Silent (check_position f (logged C) i)
  unfolding check_position get_position_quantity
  check_position-Silent i =
      Triple-choose (is_buy i.side) _ _ (λ _. pure-Silent tt)
        (λ _.
          bind-Silent _ _
            (bind-Silent _ _ (request-Silent _ refl) λ response.
              Triple-choose (response.status_code == 404) _ _ (λ _. pure-Silent _)
                (λ _.
                  bind-Silent _ _ (raise_for_status-Silent response)
                    λ _. bind-Silent _ _ (lift-Silent _) λ held. lift-Silent _))
            λ quantity. lift-Silent _)

  settle_post-Silent :
      (i : OrderIntent) (sent : Option Response) → Silent (settle_post f (logged C) i sent)
  unfolding settle_post recover
  settle_post-Silent i none =
      bind-Silent _ _ (lookup-Silent i.idempotency_key i.reference_price) (recovered i)
    where
      recovered :
          (i : OrderIntent) (report : Option ExecutionReport)
          → Silent (recover f (logged C) i report)
      recovered i none = pure-Silent _
      recovered i (some report) = pure-Silent report
  settle_post-Silent i (some response) =
      bind-Silent _ _ (raise_for_status-Silent response)
        λ _. bind-Silent _ _ (lift-Silent _) λ found. lift-Silent _

module _ (f : Format) (C : Client) (i : OrderIntent) (before : List OrderPayload) where
  -- No order was sent, or the one of the intent
  abbrev pub IsSentOnce : List OrderPayload → Type 0
  IsSentOnce sent = (sent ≡ before) ⊎ (sent ≡ payload_of f i ∷ before)

  abbrev IsBefore : List OrderPayload → Type 0
  IsBefore sent = sent ≡ before

  abbrev None : List Request × C.State → Type 0
  None s = posts s.0 ≡ before

  abbrev Once : List Request × C.State → Type 0
  Once s = IsSentOnce (posts s.0)

  send-Once : Triple None (send f (logged C) (payload_of f i)) (λ _. Once) Once
  unfolding send
  send-Once = record {
    at = λ s k.
        ended s (C.request (Request.post_order (payload_of f i)) s.1).0
          (ap (λ ps. payload_of f i ∷ ps) k);
  }
    where
      ended :
          (s : List Request × C.State) (r : Result Response)
          → payload_of f i ∷ posts s.0 ≡ payload_of f i ∷ before
          → Ends
              (λ (_ : Option Response). Once)
              Once
              (catch_timeout (
                r,
                (
                  Request.post_order (payload_of f i) ∷ s.0,
                  (C.request (Request.post_order (payload_of f i)) s.1).1,
                ),
              ))
      ended s (ok response) k = inr k
      ended s (err (Error.timeout_error t)) k = inr k
      ended s (err (Error.value_error t)) k = inr k
      ended s (err (Error.runtime_error t)) k = inr k
      ended s (err (Error.key_error t)) k = inr k
      ended s (err (Error.index_error t)) k = inr k
      ended s (err (Error.assertion_error t)) k = inr k
      ended s (err (Error.decimal_error t)) k = inr k
      ended s (err (Error.permission_error t)) k = inr k
      ended s (err (Error.http_error t)) k = inr k

  quietly :
      {A B : Type 0} (m : Action (List Request × C.State) A)
      (g : A → Action (List Request × C.State) B)
      → Silent f C IsBefore m
      → ((a : A) → Triple None (g a) (λ _. Once) Once)
      → Triple None (m >>= g) (λ _. Once) Once
  quietly m g first rest =
      Triple-bind m g (λ _. None) (Triple-weaken (λ s k. k) (λ a s k. k) (λ s k. inl k) first) rest

  submit_unseen-Once : Triple None (submit_unseen f (logged C) i) (λ _. Once) Once
  unfolding submit_unseen
  submit_unseen-Once =
      quietly _ _ (get_object-Silent f C IsBefore (Request.one_asset i.symbol) refl) λ found.
        quietly _ _ (lift-Silent f C IsBefore _) λ _. quietly _ _ (lift-Silent f C IsBefore _) λ _.
          quietly _ _ (check_position-Silent f C IsBefore i)
            λ _. Triple-bind _ _ (λ _. Once) send-Once (settle_post-Silent f C IsSentOnce i)

  resume-Once :
      (existing : Option ExecutionReport)
      → Triple None (resume f (logged C) i existing) (λ _. Once) Once
  unfolding resume
  resume-Once none = record { at = submit_unseen-Once.at }
  resume-Once (some report) = Triple-pure report (λ s k. inl k)

  submit_order-Once : Triple None (submit_order f (logged C) i) (λ _. Once) Once
  unfolding submit_order
  submit_order-Once =
      quietly _ _ (lift-Silent f C IsBefore _) λ _.
        quietly _ _ (lookup-Silent f C IsBefore i.idempotency_key i.reference_price) resume-Once

Ends-state : {S A : Type 0} (P : S → Type 0) (x : Result A × S) → Ends (λ _. P) P x → P x.1
Ends-state P (ok a, s) h = h
Ends-state P (err e, s) h = h

-- A submission sends the service at most one new order, the intent's, also where it raises and where
-- the request times out.
pub submit_order-IsSentOnce :
    (f : Format) (C : Client) (i : OrderIntent) (log : List Request) (s : C.State)
    → IsSentOnce f C i (posts log) (posts (submit_order f (logged C) i (log, s)).1.0)
submit_order-IsSentOnce f C i log s =
    Ends-state (λ x. IsSentOnce f C i (posts log) (posts x.0))
      (submit_order f (logged C) i (log, s))
      ((submit_order-Once f C i (posts log)).at (log, s) refl)
