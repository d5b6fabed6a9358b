-- ===== src/Ocpp/DataTransfer/Mismatch.antt =====
-- Which vehicles are told from others: `handle` of v16/handlers/data-transfer.handler.ts.
use nest_js_project.Prelude.{
  and_false, find_one-never, ◌≡◌, refl, true, ◌&&◌, none, some, [], ◌∷◌, String, ◌===◌, find_one,
  find_all, holds, holds_text, is_some,
}
use nest_js_project.Schema.{DeviceTransaction, Charger, Database}
use nest_js_project.Ocpp.Runtime.{Runtime}
use nest_js_project.Ocpp.Raw.{undefined, raw_keys}
use nest_js_project.Ocpp.DataTransfer.{
  TransferMessage, accepted, remote_stop, mac_id_of, is_rfid, latest, is_running, start_driver,
  is_vehicle_mismatch, assigned, stopped_at, plugged_vehicle, on_running_transaction, handle,
}

module _ {W : Type 0} where
  -- No vehicle belongs to an undefined client.
  no_vehicle_plugged :
      (db : Database W) (mac_id : String) → plugged_vehicle db mac_id undefined ≡ none
  no_vehicle_plugged db mac_id =
      find_one-never
        (λ v. holds_text v.vin_number (some mac_id) && holds (some v.client_id) undefined)
        (λ v. and_false (holds_text v.vin_number (some mac_id))) db.vehicles

  unknown_vehicle_stops :
      (rt : Runtime) (db : Database W) (msg : TransferMessage) (mac_id : String)
      (dt : DeviceTransaction W)
      → is_some dt.fleet_id ≡ true
      → is_rfid dt.platform ≡ true
      → on_running_transaction rt db msg mac_id none (some dt) ≡ (
        stopped_at (assigned db mac_id none none dt.id) dt.id,
        remote_stop msg.transaction_id ∷ [],
        accepted,
      )
  unfolding start_driver is_vehicle_mismatch
  unknown_vehicle_stops rt db msg mac_id dt fleet rfid = rw (fleet, rfid) refl

  -- A known charger that says which vehicle is plugged in, while a fleet's tag charges there, is told
  -- to stop, whichever vehicle it is, the fleet's own one too: no vehicle is ever found. The running
  -- transaction keeps the address, loses the vehicle and the driver, and is marked as a mismatch.
  pub fleet_vehicle_is_stopped :
      (rt : Runtime) (to_upper : String → String) (db : Database W) (msg : TransferMessage)
      (charger_id mac_id : String) (charger : Charger) (dt : DeviceTransaction W)
      → mac_id_of to_upper msg ≡ some mac_id
      → holds_text msg.message_id (some "VehicleMac") ≡ true
      → find_one (λ c. c.charger_id === charger_id) db.chargers ≡ some charger
      → latest (find_all (is_running charger_id msg) db.device_transactions) ≡ some dt
      → is_some dt.fleet_id ≡ true
      → is_rfid dt.platform ≡ true
      → handle rt to_upper db msg charger_id ≡ (
        stopped_at (assigned db mac_id none none dt.id) dt.id,
        remote_stop msg.transaction_id ∷ [],
        accepted,
      )
  unfolding handle raw_keys
  fleet_vehicle_is_stopped rt to_upper db msg charger_id mac_id charger dt address kind known runs
        fleet rfid =
      rw (address, kind, known, no_vehicle_plugged db mac_id, runs)
        (unknown_vehicle_stops rt db msg mac_id dt fleet rfid)
