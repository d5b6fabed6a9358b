-- ===== src/Ocpp/Meter/Frame.antt =====
-- The readings of a MeterValues message: the first part of `handle` in
-- v16/handlers/meter-values.handler.ts.
use nest_js_project.Prelude.{
  ℕ, Bool, true, ◌&&◌, Option, none, some, List, String, if◌then◌else◌, ◌===◌, find_one, filled,
  holds_text, is_some,
}

-- `value` is missing where it is falsy.
pub record MeterSample (W : Type 0) : Type 0 where
  pub measurand : Option String
  pub location : Option String
  pub context : Option String
  pub value : Option W

-- The payload of MeterValues.req, with the samples of `meterValue[0]`. The answer to it is
-- always the empty confirmation.
pub record MeterMessage (W : Type 0) : Type 0 where
  pub transaction_id : Option ℕ
  pub sampled_values : List (MeterSample W)

pub record MeterData (W : Type 0) : Type 0 where
  pub meter_value : Option W
  pub soc : Option W
  pub temperature : Option W
  pub voltage : Option W
  pub voltage_ev : Option W
  pub current_import : Option W
  pub current_import_ev : Option W
  pub current_offered : Option W
  pub power_offered : Option W

-- `location && item.location ? item.location === location : true`.
abbrev pub at_location : Option String → Option String → Bool
at_location (some location) (some found) = if filled (some found) then found === location else true
at_location _ _ = true

module _ {W : Type 0} where
  abbrev value_of : Option (MeterSample W) → Option W
  value_of none = none
  value_of (some s) = s.value

  -- The first sample of the measurand; one without a location counts for each.
  unfoldable pub find_value : List (MeterSample W) → String → Option String → Option W
  find_value samples measurand location = value_of (
      find_one (λ s. holds_text s.measurand (some measurand) && at_location location s.location)
        samples)

  unfoldable pub read_meter : MeterMessage W → MeterData W
  unfolding find_value
  read_meter msg = record {
    meter_value = find_value msg.sampled_values "Energy.Active.Import.Register" (some "Outlet");
    soc = find_value msg.sampled_values "SoC" none;
    temperature = find_value msg.sampled_values "Temperature" (some "Cable");
    voltage = find_value msg.sampled_values "Voltage" (some "Outlet");
    voltage_ev = find_value msg.sampled_values "Voltage" (some "EV");
    current_import = find_value msg.sampled_values "Current.Import" (some "Outlet");
    current_import_ev = find_value msg.sampled_values "Current.Import" (some "EV");
    current_offered = find_value msg.sampled_values "Current.Offered" (some "Outlet");
    power_offered = find_value msg.sampled_values "Power.Active.Import" (some "Outlet");
  }

  -- Some sample, and so the first one if that is it, is of the transaction's begin.
  unfoldable pub is_transaction_begin : MeterMessage W → Bool
  is_transaction_begin msg =
      is_some (find_one (λ s. holds_text s.context (some "Transaction.Begin")) msg.sampled_values)
