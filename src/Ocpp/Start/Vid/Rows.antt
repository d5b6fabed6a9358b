-- ===== src/Ocpp/Start/Vid/Rows.antt =====
-- The rows that `handleVidFlow` of v16/handlers/start-transaction.handler.ts inserts.
use nest_js_project.Prelude.{ℕ, false, none, some, String, ◌==◌}
use nest_js_project.Prelude.Text.{◌<>◌}
use nest_js_project.Schema.{
  ChannelSource, SessionStatus, DeviceTransaction, ChargingSession, Vehicle, Tariff, Database,
}
use nest_js_project.Number.{Number, number_or_zero}
use nest_js_project.Ocpp.Runtime.{Runtime}
use nest_js_project.Ocpp.Raw.{ChargerKeys}
use nest_js_project.Ocpp.Start.Frame.{StartMessage, generate_transaction_id}
use nest_js_project.Ocpp.Start.Energy.{EnergyBudget}
use nest_js_project.Ocpp.Start.Vid.Lookup.{vid_driver}

module _ {W : Type 0} ⦃num : Number W⦄ where
  open num use {of_ℕ, le}

  unfoldable pub vid_transaction :
      Runtime
      → Database W
      → StartMessage W
      → ChargerKeys
      → ℕ
      → String
      → Vehicle W
      → Tariff W
      → String
      → EnergyBudget W
      → DeviceTransaction W
  vid_transaction rt db msg charger client_id charger_id vehicle price tariff_name budget = record {
    id = rt.new_transaction;
    transaction_id = some (generate_transaction_id rt.new_transaction);
    mac_id = none;
    vehicle_id = some vehicle.id;
    charger_ref = charger.id;
    charger_id = some charger_id;
    connector_id = some (rt.show msg.connector_id);
    user_id = vehicle.user_id;
    start_date = some rt.now;
    stop_date = none;
    chargin_duration = some (of_ℕ 0);
    start_meter_value = some (number_or_zero msg.meter_start);
    stop_meter_value = some (of_ℕ 0);
    total_wh = some (of_ℕ 0);
    status = some 0;
    reason = none;
    amount = none;
    gst = none;
    price = none;
    max_energy = some budget.energy;
    max_amount = some budget.final_usable_amount;
    start_soc = some (of_ℕ 0);
    stop_soc = some (of_ℕ 0);
    is_dual_mode = some (msg.connector_id == 0);
    meter_value_store = none;
    platform = some ChannelSource.vid;
    stop_from = none;
    calc_tax_percent = some (number_or_zero price.gst);
    calc_price = some (number_or_zero price.price);
    tariff_name = some tariff_name;
    fleet_id = vehicle.fleet_id;
    start_driver_id = vid_driver rt db vehicle vehicle.fleet_id;
    rfid_tag = none;
    emsp_id = none;
    is_abnormal_stop = false;
    client_id = client_id;
    initiated_client_id = none;
    payment_transaction_id = none;
    is_over_consumed_qr = none;
    pending_recovery_amount_qr = none;
    created_at = some rt.now;
  }

  unfoldable pub vid_session :
      Runtime
      → Database W
      → StartMessage W
      → ChargerKeys
      → ℕ
      → String
      → String
      → Vehicle W
      → Tariff W
      → String
      → EnergyBudget W
      → ChargingSession W
  vid_session rt db msg charger client_id charger_id prefix vehicle price tariff_name budget =
      record {
        id = rt.new_session;
        transaction_id = some rt.new_transaction;
        session_id = some (prefix <> rt.random_hex);
        user_id = vehicle.user_id;
        max_energy = some budget.energy;
        max_amount = some budget.final_usable_amount;
        connector_id = some msg.connector_id;
        charger_id = some charger_id;
        reason = none;
        status = some SessionStatus.started;
        platform = some ChannelSource.vid;
        stop_from = none;
        charger_ref = charger.id;
        calc_tax_percent = some (number_or_zero price.gst);
        calc_price = some (number_or_zero price.price);
        tariff_name = some tariff_name;
        fleet_id = vehicle.fleet_id;
        start_driver_id = vid_driver rt db vehicle vehicle.fleet_id;
        rfid_tag = none;
        emsp_id = none;
        msp_res_url = none;
        client_id = client_id;
        initiated_client_id = none;
        max_charging_percentage = none;
        payment_transaction_id = none;
        remote_start_attempts = some 0;
        next_action_at = none;
        failure_reason = none;
        created_at = rt.now;
      }
