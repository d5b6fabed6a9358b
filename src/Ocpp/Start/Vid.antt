-- ===== src/Ocpp/Start/Vid.antt =====
-- The start of a session by a vehicle's own number: `handleVidFlow` of
-- v16/handlers/start-transaction.handler.ts. It does not ask whether the connector is occupied.
mod Lookup
mod Rows
unfoldable pub use Lookup.*
unfoldable pub use Rows.*
use nest_js_project.Prelude.{
  ℕ, Bool, false, ◌&&◌, Option, none, some, [], String, if◌then◌else◌, ◌==◌, leb, find_one, filled,
  holds, holds_text, get_or_else, is_some,
}
use nest_js_project.Prelude.Text.{◌<>◌, leb_text, second_part}
use nest_js_project.Schema.{
  ChannelSource, SessionStatus, DeviceTransaction, ChargingSession, RfidTag, Vehicle, Wallet,
  Tariff, UserType, Feature, FleetDriverVehicle, Database,
}
use nest_js_project.Number.{Number, number_or_zero, as_number}
use nest_js_project.Ocpp.Runtime.{Runtime}
use nest_js_project.Ocpp.Tariff.{
  user_type_of_user, user_type_of_group, required_tariff, tariff_user_type,
}
use nest_js_project.Ocpp.Stop.Price.{wallet_of}
use nest_js_project.Ocpp.Raw.{ChargerKeys}
use nest_js_project.Ocpp.Start.Frame.{
  StartMessage, StartResult, TagInfo, accepted, invalid, no_info, note, tag_of, refuse,
  generate_transaction_id, send_charging_started_notification,
}
use nest_js_project.Ocpp.Start.Energy.{EnergyBudget, calculate_energy}
use nest_js_project.Store.{insert_transaction, insert_session}
use nest_js_project.Ocpp.Start.Rfid.{type_name}

module _ {W : Type 0} ⦃num : Number W⦄ where
  open num use {of_ℕ, le}

  abbrev pub open_vid :
      Runtime
      → Database W
      → StartMessage W
      → ChargerKeys
      → ℕ
      → String
      → String
      → Vehicle W
      → Tariff W
      → String
      → EnergyBudget W
      → StartResult W
  open_vid rt db msg charger client_id charger_id prefix vehicle price tariff_name budget =
      let opened =
        insert_transaction
          (vid_transaction rt db msg charger client_id charger_id vehicle price tariff_name budget)
          db in
      let after =
        insert_session
          (vid_session rt db msg charger client_id charger_id prefix vehicle price tariff_name
            budget)
          opened in
      (
        after,
        send_charging_started_notification after vehicle.user_id,
        record {
          uuid = msg.uuid;
          status = accepted;
          info = tag_info (payer_tag after vehicle.user_id vehicle.fleet_id);
          transaction_id = some (generate_transaction_id rt.new_transaction);
        },
      )

  abbrev refused : Database W → StartMessage W → String → StartResult W
  refused db msg text = (db, [], refuse msg.uuid invalid (note text))

  -- `clientId` has no default, so that the database refuses an insert without it; `handle` catches that.
  abbrev insert_for :
      Runtime
      → Database W
      → StartMessage W
      → ChargerKeys
      → Option ℕ
      → String
      → String
      → Vehicle W
      → Tariff W
      → String
      → EnergyBudget W
      → StartResult W
  insert_for rt db msg charger none charger_id prefix vehicle price tariff_name budget =
      refused db msg "Backend Server Issue"
  insert_for rt db msg charger (some client_id) charger_id prefix vehicle price tariff_name budget =
      open_vid rt db msg charger client_id charger_id prefix vehicle price tariff_name budget

  abbrev on_tariff :
      Runtime
      → Database W
      → StartMessage W
      → ChargerKeys
      → String
      → String
      → Vehicle W
      → Wallet W
      → Option (Tariff W)
      → StartResult W
  on_tariff rt db msg charger charger_id prefix vehicle wallet none =
      refused db msg "No matching tariff price type found for user"
  on_tariff rt db msg charger charger_id prefix vehicle wallet (some price) =
      let budget =
        calculate_energy db charger vehicle.user_id vehicle.fleet_id wallet
          (number_or_zero vehicle.max_amount) price in
      if le budget.final_usable_amount (of_ℕ 0)
      then refused db msg "Final Usable Amount less than or equal to 0"
      else insert_for rt db msg charger charger.client_id charger_id prefix vehicle price
          (type_name (tariff_user_type db (some price))) budget

  abbrev on_wallet :
      Runtime
      → Database W
      → StartMessage W
      → ChargerKeys
      → String
      → String
      → Vehicle W
      → Option (Wallet W)
      → StartResult W
  on_wallet rt db msg charger charger_id prefix vehicle none = refused db msg "Insufficient balance"
  on_wallet rt db msg charger charger_id prefix vehicle (some wallet) =
      if le (as_number wallet.balance) (of_ℕ 10)
      then refused db msg "Insufficient balance"
      else on_tariff rt db msg charger charger_id prefix vehicle wallet (
          required_tariff db charger
            (vid_user_type rt db charger vehicle.fleet_id vehicle.fleet_group_id vehicle.user_id))

  abbrev on_vehicle :
      Runtime
      → Database W
      → StartMessage W
      → ChargerKeys
      → String
      → String
      → Option (Vehicle W)
      → StartResult W
  on_vehicle rt db msg charger charger_id prefix none =
      refused db msg "Vehicle not found or auto charge not enabled"
  on_vehicle rt db msg charger charger_id prefix (some vehicle) =
      if has_auto_charge db charger.vendor_id
      then on_wallet rt db msg charger charger_id prefix vehicle
          (wallet_of db vehicle.user_id vehicle.fleet_id)
      else (db, [], refuse msg.uuid invalid no_info)

  abbrev on_number :
      Runtime
      → Database W
      → StartMessage W
      → ChargerKeys
      → String
      → String
      → Option String
      → StartResult W
  on_number rt db msg charger charger_id prefix vid =
      if filled vid
      then on_vehicle rt db msg charger charger_id prefix
          (vehicle_of db (get_or_else vid "") charger.client_id)
      else (db, [], refuse msg.uuid invalid no_info)

  unfoldable pub handle_vid_flow :
      Runtime → Database W → StartMessage W → ChargerKeys → String → String → String → StartResult W
  handle_vid_flow rt db msg charger charger_id id_tag prefix =
      on_number rt db msg charger charger_id prefix (second_part id_tag)
