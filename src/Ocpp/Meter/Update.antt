-- ===== src/Ocpp/Meter/Update.antt =====
-- What a reading does to the rows: the updates of `handle` in
-- v16/handlers/meter-values.handler.ts.
use nest_js_project.Prelude.{ℕ, Bool, false, ◌&&◌, Option, none, some, String, if◌then◌else◌, holds}
use nest_js_project.Schema.{ChannelSource, DeviceTransaction, ChargingSession, TransactionDetail}
use nest_js_project.Number.{Number, as_number, is_truthy, number_or_zero}
use nest_js_project.Ocpp.Runtime.{Runtime}
use nest_js_project.Ocpp.Stop.Reading.{chargin_duration}
use nest_js_project.Ocpp.Meter.Frame.{MeterData}

abbrev pub in_dual_mode : Option Bool → Bool
in_dual_mode none = false
in_dual_mode (some b) = b

module _ {W : Type 0} ⦃num : Number W⦄ where
  open num use {of_ℕ, add, sub, div, le, to_fixed}

  unfoldable pub record_begin : MeterData W → DeviceTransaction W → DeviceTransaction W
  record_begin meter_data row = record row { start_soc = some (as_number meter_data.soc) }

  -- In dual mode the reading comes on top of the one that was stored.
  unfoldable pub stop_meter_value_of : MeterData W → DeviceTransaction W → W
  stop_meter_value_of meter_data dt =
      if in_dual_mode dt.is_dual_mode
      then add (number_or_zero dt.meter_value_store) (as_number meter_data.meter_value)
      else as_number meter_data.meter_value

  unfoldable pub used_meter_value : MeterData W → DeviceTransaction W → W
  unfolding stop_meter_value_of
  used_meter_value meter_data dt =
      sub (stop_meter_value_of meter_data dt) (number_or_zero dt.start_meter_value)

  unfoldable pub record_reading :
      Runtime → MeterData W → DeviceTransaction W → DeviceTransaction W → DeviceTransaction W
  unfolding stop_meter_value_of used_meter_value chargin_duration
  record_reading rt meter_data dt row = record row {
    stop_soc = some (as_number meter_data.soc);
    chargin_duration = some (chargin_duration rt dt.created_at);
    stop_meter_value = some (stop_meter_value_of meter_data dt);
    total_wh = some (
        if in_dual_mode dt.is_dual_mode
        then used_meter_value meter_data dt
        else to_fixed 3 (used_meter_value meter_data dt));
    meter_value_store =
        if in_dual_mode dt.is_dual_mode
        then some (as_number meter_data.meter_value)
        else row.meter_value_store;
  }

  -- `usedMeterValue / 1000 >= Number(maxEnergy)` while the transaction runs.
  abbrev pub energy_reached : MeterData W → DeviceTransaction W → Bool
  energy_reached meter_data dt =
      le (as_number dt.max_energy) (div (used_meter_value meter_data dt) (of_ℕ 1000))
      && holds dt.status (some 0)

  abbrev pub percentage_at : Option W → W → Bool
  percentage_at none soc = false
  percentage_at (some limit) soc = is_truthy limit && le limit soc

  abbrev pub percentage_reached : MeterData W → ChargingSession W → Bool
  percentage_reached meter_data session =
      percentage_at session.max_charging_percentage (as_number meter_data.soc)

  unfoldable pub detail_of : String → ℕ → ℕ → MeterData W → TransactionDetail W
  detail_of charger_id transaction_id transaction_ref meter_data = record {
    charger_id = charger_id;
    transaction_id = transaction_id;
    transaction_ref = transaction_ref;
    temperature = meter_data.temperature;
    voltage = meter_data.voltage;
    voltage_ev = meter_data.voltage_ev;
    battery_percentage = meter_data.soc;
    current_import = meter_data.current_import;
    current_import_ev = meter_data.current_import_ev;
    current_offered = meter_data.current_offered;
    power_offered = meter_data.power_offered;
    meter_value = meter_data.meter_value;
  }

module _ {W : Type 0} where
  unfoldable pub stop_by_server : String → DeviceTransaction W → DeviceTransaction W
  stop_by_server reason row = record row {
    stop_from = some ChannelSource.server;
    reason = some reason;
  }

  unfoldable pub end_by_server : String → ChargingSession W → ChargingSession W
  end_by_server reason row = record row {
    stop_from = some ChannelSource.server;
    reason = some reason;
  }
