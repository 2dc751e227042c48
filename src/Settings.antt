-- ===== src/Settings.antt =====
-- src/project_fifty/config/settings.py: the settings that the components read. Reading the
-- environment and the normalisation of the symbols' letters are not modelled.
use project_fifty.Prelude.{ℕ, String, Bool, List}
use project_fifty.Decimal.{Decimal}

pub record Settings : Type 0 where
  pub account_currency : String
  pub authorized_starting_cash : Decimal
  pub kill_switch : Bool
  pub max_stale_seconds : ℕ
  pub max_order_notional : Decimal
  pub permitted_symbols : List String
