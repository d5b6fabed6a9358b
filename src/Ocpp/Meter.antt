-- ===== src/Ocpp/Meter.antt =====
-- v16/handlers/meter-values.handler.ts: the readings of a running charging session. `handle`
-- answers with the database after the call, and the calls to other systems; those that the code does
-- not wait for, the push notification and the roaming partner's update, may come later.
pub mod Frame
pub mod Update
pub mod Limits
pub mod Stops
pub mod Silent
mod Tests
use nest_js_project.Prelude.{
  ℕ, Bool, true, false, ◌&&◌, ◌||◌, not, Option, none, some, List, [], ◌∷◌, ◌++◌, String,
  if◌then◌else◌, ◌==◌, find_one, holds, is_some, filled, get_or_else,
}
use nest_js_project.Schema.{
  ChannelSource, DeviceTransaction, ChargingSession, Charger, User, ClientDetail, Database,
}
use nest_js_project.Number.{Number, as_number}
use nest_js_project.Ocpp.Runtime.{Runtime}
use nest_js_project.Ocpp.Raw.{raw_keys}
use nest_js_project.Ocpp.Start.Frame.{raw_token, raw_client}
use nest_js_project.Ocpp.Effect.{
  Effect, emit_to_room, push_notification, remote_stop, ocpi_patch_session,
}
use nest_js_project.Store.{update_transaction, update_session, transaction_of, session_of}
use nest_js_project.Ocpp.Stop.Price.{Price, ocpi_price}
use nest_js_project.Ocpp.Stop.Payment.{Bill, bill_of, raw_party_id}
use Frame.{MeterMessage, MeterData, read_meter, is_transaction_begin}
use Update.{
  record_begin, record_reading, energy_reached, percentage_reached, detail_of, stop_by_server,
  end_by_server,
}

abbrev pub MeterResult : Type 0 → Type 0
MeterResult W = Database W × List (Effect W)

abbrev pub is_ocpi : Option ChannelSource → Bool
is_ocpi (some ChannelSource.ocpi) = true
is_ocpi _ = false

module _ {W : Type 0} ⦃num : Number W⦄ where
  open num use {of_ℕ, eq}

  -- `user?.fcmToken`, where the keys of the row are `u_fcmToken` and `u_clientId`.
  abbrev pub push_to : Option User → List (Effect W)
  push_to user =
      if filled (raw_token user)
      then push_notification (raw_client user) (get_or_else (raw_token user) "") "charging-soc" ∷ []
      else []

  abbrev pub is_milestone : W → Bool
  is_milestone soc = eq soc (of_ℕ 80) || eq soc (of_ℕ 90) || eq soc (of_ℕ 95) || eq soc (of_ℕ 100)

  abbrev pub push_soc : Database W → W → W → Option ℕ → List (Effect W)
  push_soc db soc last none = []
  push_soc db soc last (some user_id) =
      if is_milestone soc && not (eq last soc)
      then push_to (find_one (λ u. u.id == user_id) db.users)
      else []

  -- At 80, 90, 95 and 100 percent, once each.
  unfoldable pub soc_push :
      Database W → MeterData W → DeviceTransaction W → ChargingSession W → List (Effect W)
  soc_push db meter_data dt session =
      push_soc db (as_number meter_data.soc) (as_number dt.stop_soc) session.user_id

  abbrev price_key : Option (Price W) → Option ℕ
  price_key none = none
  price_key (some p) = some p.id

  abbrev pub patch_with : Option (Price W) → Bill W → Bool → ChargingSession W → List (Effect W)
  patch_with price bill known session =
      if known
      then ocpi_patch_session session.id (price_key price) bill.amount bill.gst_amount ∷ []
      else []

  abbrev pub patch_at :
      Database W → ChargingSession W → DeviceTransaction W → Option Charger → List (Effect W)
  patch_at db session dt none = []
  patch_at db session dt (some charger) =
      let price = ocpi_price db (some (raw_keys charger)) session in
      patch_with price (bill_of price (as_number dt.total_wh))
        (filled (raw_party_id (find_one (λ d. d.client_id == session.client_id) db.client_details)))
        session

  -- The price so far, from the row as it was before this reading.
  unfoldable pub patch_ocpi_session_on_meter_value :
      Database W → ChargingSession W → DeviceTransaction W → List (Effect W)
  patch_ocpi_session_on_meter_value db session dt =
      patch_at db session dt (find_one (λ c. holds (some c.id) session.charger_ref) db.chargers)

  -- The rows say why, and the charger is asked to stop.
  unfoldable pub stop_if :
      Bool → String → ℕ → DeviceTransaction W → ChargingSession W → Database W → MeterResult W
  stop_if false reason n dt session db = (db, [])
  stop_if true reason n dt session db = (
    update_session session.id (end_by_server reason)
        (update_transaction dt.id (stop_by_server reason) db),
    remote_stop n ∷ [],
  )

  unfoldable pub on_reading :
      Runtime
      → Database W
      → ℕ
      → MeterData W
      → DeviceTransaction W
      → ChargingSession W
      → MeterResult W
  on_reading rt db n meter_data dt session =
      let noted = update_transaction dt.id (record_reading rt meter_data dt) db in
      let (limited, stops) =
        stop_if (energy_reached meter_data dt) "Max Energy Reached" n dt session noted in
      let (after, more) =
        stop_if (percentage_reached meter_data session) "Max Percentage Reached" n dt session
          limited in
      (
        after,
        soc_push db meter_data dt session
            ++ (if is_ocpi session.platform && not (holds dt.status (some 1))
                then patch_ocpi_session_on_meter_value noted session dt
                else [])
            ++ stops
            ++ more,
      )

  abbrev pub add_detail :
      String
      → ℕ
      → DeviceTransaction W
      → ChargingSession W
      → MeterData W
      → MeterResult W
      → MeterResult W
  add_detail charger_id n dt session meter_data (db, calls) = (
    record db {
      transaction_details = db.transaction_details ++ detail_of charger_id n dt.id meter_data ∷ [];
    },
    calls ++ emit_to_room session.session_id "meterValue" ∷ [],
  )

  unfoldable pub on_session :
      Runtime
      → Database W
      → MeterMessage W
      → String
      → ℕ
      → DeviceTransaction W
      → Option (ChargingSession W)
      → MeterResult W
  on_session rt db msg charger_id n dt none = (db, [])
  on_session rt db msg charger_id n dt (some session) =
      let meter_data = read_meter msg in
      let reading = on_reading rt db n meter_data dt session in
      add_detail charger_id n dt session meter_data (
        if is_transaction_begin msg
        then (update_transaction dt.id (record_begin meter_data) db, [])
        else reading)

  unfoldable pub on_transaction :
      Runtime
      → Database W
      → MeterMessage W
      → String
      → ℕ
      → Option (DeviceTransaction W)
      → MeterResult W
  on_transaction rt db msg charger_id n none = (db, [])
  on_transaction rt db msg charger_id n (some dt) =
      on_session rt db msg charger_id n dt (session_of db dt)

  unfoldable pub on_number :
      Runtime → Database W → MeterMessage W → String → Option ℕ → MeterResult W
  on_number rt db msg charger_id none = (db, [])
  on_number rt db msg charger_id (some n) =
      if n == 0 then (db, []) else on_transaction rt db msg charger_id n (transaction_of db n)

  unfoldable pub handle : Runtime → Database W → MeterMessage W → String → MeterResult W
  handle rt db msg charger_id = on_number rt db msg charger_id msg.transaction_id
