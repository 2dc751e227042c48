-- ===== src/Kernel/Calls/Twice.antt =====
-- A proposal that is handled a second time.
use project_fifty.Prelude.{
  ℕ, String, ◌≡◌, sym, ◌∙◌, ap, ◌⊎◌, inl, inr, true, false, contains, List, ◌∷◌,
}
use project_fifty.Domain.{TradeProposal}
use project_fifty.Settings.{Settings}
use project_fifty.Broker.{BrokerAdapter}
use project_fifty.Control.{ControlState}
use project_fifty.Kernel.State.{Memory, Kernel}
use project_fifty.Kernel.Handle.{handle_proposal}
use project_fifty.Kernel.Calls.Watched.{BrokerCall, watched}
use project_fifty.Kernel.Calls.Authority.{
  IsAuthorised, authorised_order, authorised_cancel, IsUsed, handle_proposal-IsUsed,
}

IsAuthorised-new_key :
    (s : Settings) (p : TradeProposal) (now : ℕ) (m : Memory) (control : ControlState)
    (c : BrokerCall)
    → IsAuthorised s p now m control c
    → contains p.idempotency_key m.known_idempotency_keys ≡ false
IsAuthorised-new_key s p now m control c (authorised_order i cash portfolio a _ _ _ _) = a.new_key
IsAuthorised-new_key s p now m control c (authorised_cancel id a _ _) = a.new_key

-- At most one call more
abbrev pub IsOneMore : List BrokerCall → List BrokerCall → Type 0
IsOneMore calls calls' = (calls' ≡ calls) ⊎ ((c : BrokerCall) × (calls' ≡ c ∷ calls))

module _ (s : Settings) (B : BrokerAdapter) (now now' : ℕ) (p : TradeProposal) where
  second :
      (k k1 k2 : Kernel (List BrokerCall × B.State)) (uuid uuid' : String)
      → IsUsed s B uuid now p k k1
      → IsUsed s B uuid' now' p k1 k2
      → IsOneMore k.broker.0 k2.broker.0
  second k k1 k2 uuid uuid' (inl none_first) (inl none_later) = inl (none_later ∙ none_first)
  second k k1 k2 uuid uuid' (inl none_first) (inr (c, _, one, _)) =
      inr (c, one ∙ ap (λ calls. c ∷ calls) none_first)
  second k k1 k2 uuid uuid' (inr (c, _, one, _)) (inl none_later) = inr (c, none_later ∙ one)
  second k k1 k2 uuid uuid' (inr (c, _, _, known)) (inr (d, authorised, _, _)) =
      let new = IsAuthorised-new_key s p now' k1.memory k1.control d authorised in
      let clash : true ≡ false = sym known ∙ new in absurd cc

  -- A retry is safe: a proposal that is handled twice, at any times and whatever the first call
  -- ended in, makes the broker do at most one thing in all.
  pub handle_proposal-IsOneMore :
      (uuid uuid' : String) (k : Kernel (List BrokerCall × B.State))
      → let k1 = (handle_proposal s (watched B) uuid now p k).1 in
        IsOneMore k.broker.0 (handle_proposal s (watched B) uuid' now' p k1).1.broker.0
  handle_proposal-IsOneMore uuid uuid' k =
      let k1 = (handle_proposal s (watched B) uuid now p k).1 in
      second k k1 (handle_proposal s (watched B) uuid' now' p k1).1 uuid uuid'
        (handle_proposal-IsUsed s B uuid now p k) (handle_proposal-IsUsed s B uuid' now' p k1)
