-- ===== src/Ocpp/Stop/Reading.antt =====
-- The frame and the meter of `handle` in v16/handlers/stop-transaction.handler.ts.
use nest_js_project.Prelude.{
  ℕ, Bool, ◌&&◌, Option, none, some, List, String, if◌then◌else◌, find_one, holds_text, or_else,
}
use nest_js_project.Schema.{ChannelSource, DeviceTransaction}
use nest_js_project.Number.{Number, number_or_zero}
use nest_js_project.Ocpp.Runtime.{Runtime}

pub record SampledValue (W : Type 0) : Type 0 where
  pub context : Option String
  pub measurand : Option String
  pub value : Option W

-- The payload of StopTransaction.req, `message[3]`, with the frame's uuid.
pub record StopMessage (W : Type 0) : Type 0 where
  pub uuid : String
  pub transaction_id : ℕ
  pub meter_stop : Option W
  pub reason : Option String
  pub sampled_values : List (SampledValue W)  -- of `transactionData?.[0]`
  pub is_abnormal_admin_stop : Bool

-- `reason === 'Local' ? 'RFID' : 'CHARGER'`.
abbrev pub stop_source : Option String → ChannelSource
stop_source reason =
    if holds_text reason (some "Local") then ChannelSource.rfid else ChannelSource.charger

module _ {W : Type 0} ⦃num : Number W⦄ where
  open num use {of_ℕ, sub, div, lt, max}

  abbrev value_of : Option (SampledValue W) → W
  value_of none = of_ℕ 0
  value_of (some s) = number_or_zero s.value

  -- The state of charge that the frame gives for `Transaction.Begin` or `Transaction.End`.
  unfoldable pub soc_at : String → StopMessage W → W
  soc_at context msg = value_of (
      find_one (λ s. holds_text s.context (some context) && holds_text s.measurand (some "SoC"))
        msg.sampled_values)

  -- The meter is the larger of the frame's reading and the last one stored.
  unfoldable pub last_meter_value : StopMessage W → DeviceTransaction W → W
  last_meter_value msg dt = max (number_or_zero msg.meter_stop) (number_or_zero dt.stop_meter_value)

  unfoldable pub total_wh : StopMessage W → DeviceTransaction W → W
  unfolding last_meter_value
  total_wh msg dt =
      max (sub (last_meter_value msg dt) (number_or_zero dt.start_meter_value)) (of_ℕ 0)

  -- A timestamp that does not parse gives no duration.
  unfoldable pub chargin_duration : Runtime → Option ℕ → W
  chargin_duration rt none = of_ℕ 0
  chargin_duration rt (some created_at) = sub (of_ℕ rt.now) (of_ℕ created_at)

  abbrev pub if_positive : W → Option W → Option W
  if_positive x old = if lt (of_ℕ 0) x then some x else old

  -- The first update of the transaction's row: the end of the charging, not yet its price;
  -- `dt` is the row as it was read.
  unfoldable pub record_stop :
      Runtime → StopMessage W → DeviceTransaction W → DeviceTransaction W → DeviceTransaction W
  unfolding soc_at last_meter_value total_wh chargin_duration
  record_stop rt msg dt row = record row {
    stop_date = some rt.now;
    reason = or_else dt.reason msg.reason;
    stop_from = or_else dt.stop_from (some (stop_source msg.reason));
    start_soc = if_positive (soc_at "Transaction.Begin" msg) dt.start_soc;
    stop_soc = if_positive (soc_at "Transaction.End" msg) dt.stop_soc;
    total_wh = some (total_wh msg dt);
    stop_meter_value = some (last_meter_value msg dt);
    chargin_duration = some (chargin_duration rt dt.created_at);
  }
