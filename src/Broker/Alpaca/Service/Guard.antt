-- ===== src/Broker/Alpaca/Service/Guard.antt =====
-- The guard changes the control state only where the service disagrees with the session.
use project_fifty.Prelude.{String, Bool, true, false, ◌≡◌, ◌⊎◌, refl, List, arith, sym, ◌∙◌, []}
use project_fifty.Prelude.Dict.{Dict}
use project_fifty.Outcome.{Result, ok, err}
use project_fifty.Decimal.{Decimal}
use project_fifty.Domain.{mode_eq, dead, safe}
use project_fifty.Control.{ControlState, transition_mode, set_mode, set_mode_backed}
use project_fifty.Ledger.Events.{Event}
use project_fifty.Broker.Alpaca.Replies.{Format}
use project_fifty.Broker.Alpaca.Orders.{Client}
use project_fifty.Broker.Alpaca.Service.Agreement.{
  IsDict, IsSame, held_quantities-IsDict, is_consistent-IsSame, IsSame-is_consistent,
}
use project_fifty.Broker.Alpaca.Service.Reading.{
  err-ok, IsReading, IsReading-read_consistent, read_consistent-IsReading,
}
use project_fifty.Broker.Alpaca.Service.{
  guard_control, guard_result, guard_broker_state, read_consistent,
}

abbrev IsSafe : ControlState → List Event → Result (Bool × ControlState) × List Event → Type 0
IsSafe control events (ok (b, c), events') =
    (b ≡ false) × ((c.mode ≡ safe) ⊎ ((c.mode ≡ dead) × (c ≡ control) × (events' ≡ events)))
IsSafe control events (err e, events') = ⊥

guard_control-IsSafe :
    (control : ControlState) (events : List Event)
    → IsSafe control events (guard_control false control events)
unfolding guard_control transition_mode set_mode set_mode_backed mode_eq
guard_control-IsSafe control events = ground arith

module _ (f : Format) (C : Client) (expected : Dict Decimal) (expected_ids : List String)
    (control : ControlState) (s : C.State) (events : List Event) where
  -- The service gives quantities and ids, and they are or are not those expected.
  abbrev pub IsRead : (Dict Decimal → List String → Type 0) → C.State → Type 0
  IsRead P s' =
      (held : Dict Decimal) × (ids : List String) × IsReading f C s held ids s' × P held ids

  abbrev pub IsMatch : Dict Decimal → List String → Type 0
  IsMatch held ids = IsSame held ids expected expected_ids

  -- What the guard may end in
  abbrev pub IsGuarded : Result (Bool × ControlState) × (C.State × List Event) → Type 0
  IsGuarded (ok (true, c), (s', events')) = IsRead IsMatch s' × (c ≡ control) × (events' ≡ events)
  IsGuarded (ok (false, c), (s', events')) =
      IsRead (λ held ids. ¬ IsMatch held ids) s'
      × ((c.mode ≡ safe) ⊎ ((c.mode ≡ dead) × (c ≡ control) × (events' ≡ events)))
  IsGuarded (err e, (s', events')) =
      (events' ≡ events)
      × ((held : Dict Decimal) (ids : List String) (last : C.State)
          → ¬ IsReading f C s held ids last)

  differing :
      (s' : C.State) (x : Result (Bool × ControlState) × List Event)
      → IsRead (λ held ids. ¬ IsMatch held ids) s'
      → IsSafe control events x
      → IsGuarded (x.0, (s', x.1))
  differing s' (ok (true, c), events') seen h = absurd (let no = h.0 in ground arith)
  differing s' (ok (false, c), events') seen h = (seen, h.1)
  differing s' (err e, events') seen h = absurd h

  guard_result-IsGuarded :
      (x : Result Bool × C.State)
      → IsDict expected
      → read_consistent f C expected expected_ids s ≡ x
      → IsGuarded (guard_result control events x)
  guard_result-IsGuarded (err e, s') k h = (
    refl,
    λ held ids last seen.
        err-ok _ _ _ _
          (sym h ∙ IsReading-read_consistent f C expected expected_ids s last held ids seen),
  )
  guard_result-IsGuarded (ok true, s') k h =
      let (held, ids, seen, same) =
        read_consistent-IsReading f C expected expected_ids s s' true h in
      unfold guard_control in
      ((held, ids, seen, is_consistent-IsSame held ids expected expected_ids same), refl, refl)
  guard_result-IsGuarded (ok false, s') k h =
      let (held, ids, seen, same) =
        read_consistent-IsReading f C expected expected_ids s s' false h in
      let own = held_quantities-IsDict f [] held seen.0 tt seen.4 in
      differing s' (guard_control false control events)
        (
          held,
          ids,
          seen,
          λ alike. absurd (
              let match = IsSame-is_consistent held ids expected expected_ids own k alike in
              ground arith),
        )
        (guard_control-IsSafe control events)

-- Where the guard returns true it read of the service the quantities, other than zero, and the open
-- orders that the session expects, and leaves the control state and its ledger alone. Where it
-- returns false it read others, and the mode is SAFE, or a DEAD control state and its ledger are left
-- alone. Where it raises the service could not be read, and the ledger is left alone. The expected
-- quantities are a dict, with one value for a key.
pub guard_broker_state-IsGuarded :
    (f : Format) (C : Client) (expected : Dict Decimal) (expected_ids : List String)
    (control : ControlState) (s : C.State) (events : List Event)
    → IsDict expected
    → IsGuarded f C expected expected_ids control s events
        (guard_broker_state f C expected expected_ids control (s, events))
unfolding guard_broker_state
guard_broker_state-IsGuarded f C expected expected_ids control s events k =
    guard_result-IsGuarded f C expected expected_ids control s events
      (read_consistent f C expected expected_ids s) k refl
