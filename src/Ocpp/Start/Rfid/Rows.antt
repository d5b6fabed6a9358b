-- ===== src/Ocpp/Start/Rfid/Rows.antt =====
-- The rows that `handleRfidFlow` of v16/handlers/start-transaction.handler.ts inserts.
use nest_js_project.Prelude.{ℕ, false, none, some, String, ◌==◌}
use nest_js_project.Prelude.Text.{◌<>◌}
use nest_js_project.Schema.{
  ChannelSource, SessionStatus, DeviceTransaction, ChargingSession, RfidTag, Tariff,
}
use nest_js_project.Number.{Number, number_or_zero}
use nest_js_project.Ocpp.Runtime.{Runtime}
use nest_js_project.Ocpp.Raw.{ChargerKeys}
use nest_js_project.Ocpp.Start.Frame.{StartMessage, generate_transaction_id}
use nest_js_project.Ocpp.Start.Energy.{EnergyBudget}

module _ {W : Type 0} ⦃num : Number W⦄ where
  open num use {of_ℕ, le}

  unfoldable pub rfid_transaction :
      Runtime
      → StartMessage W
      → ChargerKeys
      → ℕ
      → String
      → RfidTag W
      → Tariff W
      → String
      → EnergyBudget W
      → DeviceTransaction W
  rfid_transaction rt msg charger client_id charger_id tag price tariff_name budget = record {
    id = rt.new_transaction;
    transaction_id = some (generate_transaction_id rt.new_transaction);
    mac_id = none;
    vehicle_id = none;
    charger_ref = charger.id;
    charger_id = some charger_id;
    connector_id = some (rt.show msg.connector_id);
    user_id = tag.user_id;
    start_date = some rt.now;
    stop_date = none;
    chargin_duration = some (of_ℕ 0);
    start_meter_value = some (number_or_zero msg.meter_start);
    stop_meter_value = some (of_ℕ 0);
    total_wh = some (of_ℕ 0);
    status = some 0;
    reason = none;
    amount = none;
    gst = none;
    price = none;
    max_energy = some budget.energy;
    max_amount = some budget.final_usable_amount;
    start_soc = some (of_ℕ 0);
    stop_soc = some (of_ℕ 0);
    is_dual_mode = some (msg.connector_id == 0);
    meter_value_store = none;
    platform = some ChannelSource.rfid;
    stop_from = none;
    calc_tax_percent = some (number_or_zero price.gst);
    calc_price = some (number_or_zero price.price);
    tariff_name = some tariff_name;
    fleet_id = tag.fleet_id;
    start_driver_id = none;
    rfid_tag = some tag.rf_id_tag;
    emsp_id = none;
    is_abnormal_stop = false;
    client_id = client_id;
    initiated_client_id = none;
    payment_transaction_id = none;
    is_over_consumed_qr = none;
    pending_recovery_amount_qr = none;
    created_at = some rt.now;
  }

  unfoldable pub rfid_session :
      Runtime
      → StartMessage W
      → ChargerKeys
      → ℕ
      → String
      → String
      → RfidTag W
      → Tariff W
      → String
      → EnergyBudget W
      → ChargingSession W
  rfid_session rt msg charger client_id charger_id prefix tag price tariff_name budget = record {
    id = rt.new_session;
    transaction_id = some rt.new_transaction;
    session_id = some (prefix <> rt.random_hex);
    user_id = tag.user_id;
    max_energy = some budget.energy;
    max_amount = some budget.final_usable_amount;
    connector_id = some msg.connector_id;
    charger_id = some charger_id;
    reason = none;
    status = some SessionStatus.started;
    platform = some ChannelSource.rfid;
    stop_from = none;
    charger_ref = charger.id;
    calc_tax_percent = some (number_or_zero price.gst);
    calc_price = some (number_or_zero price.price);
    tariff_name = some tariff_name;
    fleet_id = tag.fleet_id;
    start_driver_id = none;
    rfid_tag = some tag.rf_id_tag;
    emsp_id = none;
    msp_res_url = none;
    client_id = client_id;
    initiated_client_id = none;
    max_charging_percentage = none;
    payment_transaction_id = none;
    remote_start_attempts = some 0;
    next_action_at = none;
    failure_reason = none;
    created_at = rt.now;
  }
