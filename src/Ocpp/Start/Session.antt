-- ===== src/Ocpp/Start/Session.antt =====
-- The start of a session that was booked before: the first branch of `handle` in
-- v16/handlers/start-transaction.handler.ts, with `notifyOcpiStartResult` and
-- `handleQrPayPostStart`.
use nest_js_project.Prelude.{
  ℕ, Bool, true, false, ◌&&◌, Option, none, some, List, [], ◌∷◌, ◌++◌, String, if◌then◌else◌, ◌==◌,
  ltb, find_one, find_all, filled, get_or_else, holds, holds_text, is_some,
}
use nest_js_project.Schema.{
  ChannelSource, SessionStatus, DeviceTransaction, ChargingSession, OcpiEmsp, Database,
}
use nest_js_project.Number.{Number, number_or_zero}
use nest_js_project.Ocpp.Runtime.{Runtime}
use nest_js_project.Ocpp.Effect.{Effect, emit_to_room, ocpi_result, data_transfer}
use nest_js_project.Store.{update_session, insert_transaction}
use nest_js_project.Ocpp.Raw.{ChargerKeys}
use nest_js_project.Ocpp.Start.Frame.{
  StartMessage, StartResult, accepted, invalid, concurrent_tx, no_info, note_without_number, refuse,
  generate_transaction_id, kept_text, occupied, send_charging_started_notification,
}

-- `status NOT IN ('Started', 'Completed')`, which NULL does not meet.
abbrev pub may_start : Option SessionStatus → Bool
may_start (some SessionStatus.initiated) = true
may_start (some SessionStatus.not_started) = true
may_start (some SessionStatus.failed) = true
may_start _ = false

abbrev pub is_ocpi : Option ChannelSource → Bool
is_ocpi (some ChannelSource.ocpi) = true
is_ocpi _ = false

abbrev pub is_qrpay : Option ChannelSource → Bool
is_qrpay (some ChannelSource.qrpay) = true
is_qrpay _ = false

abbrev token_b_of : Option OcpiEmsp → Option String
token_b_of none = none
token_b_of (some e) = e.token_b

module _ {W : Type 0} where
  abbrev newer : ChargingSession W → Option (ChargingSession W) → Option (ChargingSession W)
  newer s none = some s
  newer s (some t) = if ltb s.created_at t.created_at then some t else some s

  -- `orderBy('cs.createdAt', 'DESC')`, and the first row of it.
  unfoldable pub newest : List (ChargingSession W) → Option (ChargingSession W)
  newest [] = none
  newest (s ∷ ss) = newer s (newest ss)

  unfoldable pub startable_session : Database W → String → Option ℕ → Option (ChargingSession W)
  unfolding newest
  startable_session db id_tag client_id = newest (
      find_all
        (λ s.
          holds_text s.session_id (some id_tag)
          && holds (some s.client_id) client_id
          && may_start s.status)
        db.charging_sessions)

  abbrev result_to : Database W → Option (ChargingSession W) → List (Effect W)
  result_to db none = []
  result_to db (some s) =
      if filled s.msp_res_url
        && is_some s.emsp_id
        && filled (token_b_of (find_one (λ e. holds (some e.id) s.emsp_id) db.ocpi_emsps))
      then ocpi_result (get_or_else s.msp_res_url "") ∷ []
      else []

  unfoldable pub notify_ocpi_start_result : Database W → Option String → List (Effect W)
  notify_ocpi_start_result db session_id =
      result_to db (find_one (λ s. holds_text s.session_id session_id) db.charging_sessions)

  -- `set({ transactionId: createdTxId, status: 'Started' })`.
  unfoldable pub mark_started : ℕ → ChargingSession W → ChargingSession W
  mark_started created_tx row = record row {
    transaction_id = some created_tx;
    status = some SessionStatus.started;
  }

module _ {W : Type 0} ⦃num : Number W⦄ where
  open num use {of_ℕ}

  -- The row with the transaction number that the update after the insert gives it.
  unfoldable pub session_transaction :
      Runtime → StartMessage W → ChargerKeys → String → ChargingSession W → DeviceTransaction W
  session_transaction rt msg charger charger_id session = record {
    id = rt.new_transaction;
    transaction_id = some (generate_transaction_id rt.new_transaction);
    mac_id = none;
    vehicle_id = none;
    charger_ref = charger.id;
    charger_id = some charger_id;
    connector_id = some (rt.show msg.connector_id);
    user_id = session.user_id;
    start_date = some rt.now;
    stop_date = none;
    chargin_duration = some (of_ℕ 0);
    start_meter_value = some (number_or_zero msg.meter_start);
    stop_meter_value = some (of_ℕ 0);
    total_wh = some (of_ℕ 0);
    status = some 0;
    reason = none;
    amount = none;
    gst = none;
    price = none;
    max_energy = some (number_or_zero session.max_energy);
    max_amount = some (number_or_zero session.max_amount);
    start_soc = some (of_ℕ 0);
    stop_soc = some (of_ℕ 0);
    is_dual_mode = some (msg.connector_id == 0);
    meter_value_store = none;
    platform = session.platform;
    stop_from = none;
    calc_tax_percent = some (number_or_zero session.calc_tax_percent);
    calc_price = some (number_or_zero session.calc_price);
    tariff_name = kept_text session.tariff_name;
    fleet_id = session.fleet_id;
    start_driver_id = session.start_driver_id;
    rfid_tag = none;
    emsp_id = session.emsp_id;
    is_abnormal_stop = false;
    client_id = session.client_id;
    initiated_client_id = session.initiated_client_id;
    payment_transaction_id = session.payment_transaction_id;
    is_over_consumed_qr = none;
    pending_recovery_amount_qr = none;
    created_at = some rt.now;
  }

  abbrev start_calls : Database W → ChargingSession W → ℕ → List (Effect W)
  start_calls db session transaction_id =
      emit_to_room session.session_id "StartTransaction"
        ∷ (if is_ocpi session.platform then notify_ocpi_start_result db session.session_id else [])
      ++ send_charging_started_notification db session.user_id
      ++ (if is_qrpay session.platform
          then data_transfer session.connector_id transaction_id session.max_energy ∷ []
          else [])

  abbrev pub open_session :
      Runtime
      → Database W
      → StartMessage W
      → ChargerKeys
      → String
      → ChargingSession W
      → StartResult W
  open_session rt db msg charger charger_id session =
      let opened = insert_transaction (session_transaction rt msg charger charger_id session) db in
      let after = update_session session.id (mark_started rt.new_transaction) opened in
      let number = generate_transaction_id rt.new_transaction in
      (
        after,
        start_calls after session number,
        record { uuid = msg.uuid; status = accepted; info = no_info; transaction_id = some number },
      )

  abbrev on_session :
      Runtime
      → Database W
      → StartMessage W
      → ChargerKeys
      → String
      → Option (ChargingSession W)
      → StartResult W
  on_session rt db msg charger charger_id none = (db, [], refuse msg.uuid invalid no_info)
  on_session rt db msg charger charger_id (some session) =
      if occupied db charger_id (rt.show msg.connector_id)
      then (
        db,
        [],
        refuse msg.uuid concurrent_tx (note_without_number "Connector is Already Occupied"),
      )
      else open_session rt db msg charger charger_id session

  unfoldable pub handle_session_flow :
      Runtime → Database W → StartMessage W → ChargerKeys → String → String → StartResult W
  handle_session_flow rt db msg charger charger_id id_tag =
      on_session rt db msg charger charger_id (startable_session db id_tag charger.client_id)
