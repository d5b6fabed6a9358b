-- ===== src/Ocpp/DataTransfer.antt =====
-- apps/ocpp-gateway/src/v16/handlers/data-transfer.handler.ts: a charger says which vehicle is plugged
-- in. Failures of the database, which are answered Accepted, are not represented.
pub mod Mismatch
mod Tests
use nest_js_project.Prelude.{
  ℕ, Bool, true, false, not, ◌&&◌, ◌||◌, Option, none, some, List, [], ◌∷◌, String, if◌then◌else◌,
  ◌===◌, ◌==◌, find_one, find_all, update_where, holds, holds_text, is_some, filled, get_or_else,
  ltb,
}
use nest_js_project.Prelude.Text.{second_part}
use nest_js_project.Schema.{
  ChannelSource, DeviceTransaction, ChargingSession, Charger, Vehicle, Database,
}
use nest_js_project.Ocpp.Runtime.{Runtime}
use nest_js_project.Ocpp.Raw.{undefined, raw_keys}
use nest_js_project.Ocpp.Start.Vid.{assigned_now, driver_of}

-- The payload `message[3]` with its `data`, which is a JSON text or an object. A text that does not
-- parse is answered as data without an address is.
pub record TransferMessage : Type 0 where
  pub uuid : String
  pub message_id : Option String
  pub mac : Option String  -- `payload?.mac`
  pub transaction_id : Option ℕ  -- `payload?.transactionId`

pub data TransferStatus : Type 0 where
  accepted rejected : TransferStatus

-- The call that is sent over the socket; `Number(transactionId)` is null in JSON where the payload
-- has no number.
pub data TransferEffect : Type 0 where
  remote_stop : Option ℕ → TransferEffect

abbrev upper_second : (String → String) → Option String → Option String
upper_second to_upper none = none
upper_second to_upper (some mac) = second_part (to_upper mac)

-- `payload?.mac?.toUpperCase().split(':')?.[1] || null`.
unfoldable pub mac_id_of : (String → String) → TransferMessage → Option String
mac_id_of to_upper msg =
    let part = upper_second to_upper msg.mac in if filled part then part else none

abbrev pub has_number : Option ℕ → Option ℕ → Bool
has_number none number = true
has_number (some asked) number = (asked == 0) || holds number (some asked)

abbrev pub is_rfid : Option ChannelSource → Bool
is_rfid (some ChannelSource.rfid) = true
is_rfid _ = false

abbrev pub TransferResult : Type 0 → Type 0
TransferResult W = Database W × List TransferEffect × TransferStatus

module _ {W : Type 0} where
  abbrev later : DeviceTransaction W → Option (DeviceTransaction W) → Option (DeviceTransaction W)
  later r none = some r
  later r (some s) =
      if ltb (get_or_else r.created_at 0) (get_or_else s.created_at 0) then some s else some r

  -- `orderBy('dt.createdAt', 'DESC')` and the first row.
  unfoldable pub latest : List (DeviceTransaction W) → Option (DeviceTransaction W)
  latest [] = none
  latest (r ∷ rs) = later r (latest rs)

  abbrev pub is_running : String → TransferMessage → DeviceTransaction W → Bool
  is_running charger_id msg dt =
      holds dt.status (some 0)
      && holds_text dt.charger_id (some charger_id)
      && has_number msg.transaction_id dt.transaction_id

  abbrev pub key_of : Option (Vehicle W) → Option ℕ
  key_of none = none
  key_of (some v) = some v.id

  unfoldable pub start_driver :
      Runtime → Database W → Option (Vehicle W) → DeviceTransaction W → Option ℕ
  start_driver rt db none dt = none
  start_driver rt db (some vehicle) dt =
      if is_some dt.fleet_id
      then driver_of (find_one (assigned_now rt vehicle.id) db.fleet_driver_vehicles)
      else none

  unfoldable pub assign :
      String
      → Option (Vehicle W)
      → Option ℕ
      → ℕ
      → List (DeviceTransaction W)
      → List (DeviceTransaction W)
  assign mac_id vehicle driver id dts =
      update_where (λ dt. dt.id == id)
        (λ dt. record dt {
          mac_id = some mac_id;
          vehicle_id = key_of vehicle;
          start_driver_id = driver;
        })
        dts

  abbrev is_of_other_fleet : Option ℕ → Option (Vehicle W) → Bool
  is_of_other_fleet fleet_id none = true
  is_of_other_fleet fleet_id (some vehicle) = not (holds fleet_id vehicle.fleet_id)

  -- `isVehicleMismatch`.
  unfoldable pub is_vehicle_mismatch : Option (Vehicle W) → Option ℕ → DeviceTransaction W → Bool
  is_vehicle_mismatch vehicle driver dt =
      is_some dt.fleet_id
      && is_rfid dt.platform
      && not (is_some driver)
      && is_of_other_fleet dt.fleet_id vehicle

  unfoldable pub mark_transaction : ℕ → List (DeviceTransaction W) → List (DeviceTransaction W)
  mark_transaction id dts =
      update_where (λ dt. dt.id == id)
        (λ dt. record dt {
          stop_from = some ChannelSource.server;
          reason = some "Vehicle Mismatch";
        })
        dts

  -- `session.id`, where the key of the row is `cs_id`.
  abbrev raw_session_id : ChargingSession W → Option ℕ
  raw_session_id s = undefined

  abbrev pub mark_session :
      Option (ChargingSession W) → List (ChargingSession W) → List (ChargingSession W)
  mark_session none sessions = sessions
  mark_session (some session) sessions =
      update_where (λ s. holds (some s.id) (raw_session_id session))
        (λ s. record s { stop_from = some ChannelSource.server; reason = some "Vehicle Mismatch" })
        sessions

  abbrev pub assigned : Database W → String → Option (Vehicle W) → Option ℕ → ℕ → Database W
  assigned db mac_id vehicle driver id = record db {
    device_transactions = assign mac_id vehicle driver id db.device_transactions;
  }

  abbrev pub stopped_at : Database W → ℕ → Database W
  stopped_at db id = record db {
    device_transactions = mark_transaction id db.device_transactions;
    charging_sessions =
        mark_session (find_one (λ s. holds s.transaction_id (some id)) db.charging_sessions)
          db.charging_sessions;
  }

  abbrev pub on_running_transaction :
      Runtime
      → Database W
      → TransferMessage
      → String
      → Option (Vehicle W)
      → Option (DeviceTransaction W)
      → TransferResult W
  on_running_transaction rt db msg mac_id vehicle none = (db, [], rejected)
  on_running_transaction rt db msg mac_id vehicle (some dt) =
      let driver = start_driver rt db vehicle dt in
      let done = assigned db mac_id vehicle driver dt.id in
      if is_vehicle_mismatch vehicle driver dt
      then (stopped_at done dt.id, remote_stop msg.transaction_id ∷ [], accepted)
      else (done, [], accepted)

  abbrev pub plugged_vehicle : Database W → String → Option ℕ → Option (Vehicle W)
  plugged_vehicle db mac_id client_id =
      find_one (λ v. holds_text v.vin_number (some mac_id) && holds (some v.client_id) client_id)
        db.vehicles

  abbrev pub on_plugged_charger :
      Runtime → Database W → TransferMessage → String → String → Option Charger → TransferResult W
  on_plugged_charger rt db msg charger_id mac_id none = (db, [], accepted)
  on_plugged_charger rt db msg charger_id mac_id (some row) =
      on_running_transaction rt db msg mac_id (plugged_vehicle db mac_id (raw_keys row).client_id)
        (latest (find_all (is_running charger_id msg) db.device_transactions))

  abbrev pub on_mac_id :
      Runtime → Database W → TransferMessage → String → Option String → TransferResult W
  on_mac_id rt db msg charger_id none = (db, [], accepted)
  on_mac_id rt db msg charger_id (some mac_id) =
      if holds_text msg.message_id (some "VehicleMac")
      then on_plugged_charger rt db msg charger_id mac_id
          (find_one (λ c. c.charger_id === charger_id) db.chargers)
      else (db, [], accepted)

  unfoldable pub handle :
      Runtime → (String → String) → Database W → TransferMessage → String → TransferResult W
  handle rt to_upper db msg charger_id = on_mac_id rt db msg charger_id (mac_id_of to_upper msg)
