-- ===== src/Ocpp/Start/Rfid.antt =====
-- The start of a session by an RFID tag: `handleRfidFlow` of v16/handlers/start-transaction.handler.ts.
mod Rows
unfoldable pub use Rows.*
use nest_js_project.Prelude.{
  holds, ℕ, Bool, false, ◌&&◌, Option, none, some, [], String, if◌then◌else◌, ◌==◌, ◌===◌, ltb,
  find_one,
}
use nest_js_project.Prelude.Text.{◌<>◌}
use nest_js_project.Schema.{
  ChannelSource, SessionStatus, DeviceTransaction, ChargingSession, RfidTag, Wallet, Tariff,
  UserType, Database,
}
use nest_js_project.Number.{Number, number_or_zero, as_number}
use nest_js_project.Ocpp.Runtime.{Runtime}
use nest_js_project.Ocpp.Tariff.{
  user_type_of_user, user_type_of_group, required_tariff, tariff_user_type,
}
use nest_js_project.Ocpp.Stop.Price.{wallet_of}
use nest_js_project.Ocpp.Raw.{ChargerKeys}
use nest_js_project.Ocpp.Start.Frame.{
  StartMessage, StartResult, accepted, invalid, concurrent_tx, note, tag_of, refuse,
  generate_transaction_id, occupied, send_charging_started_notification,
}
use nest_js_project.Ocpp.Start.Energy.{EnergyBudget, calculate_energy}
use nest_js_project.Store.{insert_transaction, insert_session}

abbrev pub tag_expired : Runtime → Option ℕ → Bool
tag_expired rt none = false
tag_expired rt (some date) = ltb (rt.day_end date) rt.now

abbrev pub type_name : Option UserType → String
type_name none = "Standard"
type_name (some u) = u.name

module _ {W : Type 0} where
  abbrev pub rfid_user_type :
      Runtime → Database W → ChargerKeys → Option ℕ → Option ℕ → Option ℕ → Option UserType
  rfid_user_type rt db charger (some fleet_id) (some group_id) user_id =
      user_type_of_group rt db charger (some group_id)
  rfid_user_type rt db charger fleet_id group_id (some user_id) =
      user_type_of_user rt db charger (some user_id)
  rfid_user_type rt db charger fleet_id group_id none = none

  abbrev pub rfid_tag_of : Database W → String → Option ℕ → Option (RfidTag W)
  rfid_tag_of db id_tag client_id =
      find_one (λ t. (t.rf_id_tag === id_tag) && holds (some t.client_id) client_id) db.rfid_tags

module _ {W : Type 0} ⦃num : Number W⦄ where
  open num use {of_ℕ, le}

  abbrev pub open_rfid :
      Runtime
      → Database W
      → StartMessage W
      → ChargerKeys
      → ℕ
      → String
      → String
      → RfidTag W
      → Tariff W
      → String
      → EnergyBudget W
      → StartResult W
  open_rfid rt db msg charger client_id charger_id prefix tag price tariff_name budget =
      let opened =
        insert_transaction
          (rfid_transaction rt msg charger client_id charger_id tag price tariff_name budget) db in
      let after =
        insert_session
          (rfid_session rt msg charger client_id charger_id prefix tag price tariff_name budget)
          opened in
      (
        after,
        send_charging_started_notification after tag.user_id,
        record {
          uuid = msg.uuid;
          status = accepted;
          info = tag_of tag.expiry_date (some tag.rf_id_tag);
          transaction_id = some (generate_transaction_id rt.new_transaction);
        },
      )

  abbrev refused : Database W → StartMessage W → String → StartResult W
  refused db msg text = (db, [], refuse msg.uuid invalid (note text))

  -- `clientId` has no default, so that the database refuses an insert without it; `handle` catches that.
  abbrev insert_for :
      Runtime
      → Database W
      → StartMessage W
      → ChargerKeys
      → Option ℕ
      → String
      → String
      → RfidTag W
      → Tariff W
      → String
      → EnergyBudget W
      → StartResult W
  insert_for rt db msg charger none charger_id prefix tag price tariff_name budget =
      refused db msg "Backend Server Issue"
  insert_for rt db msg charger (some client_id) charger_id prefix tag price tariff_name budget =
      open_rfid rt db msg charger client_id charger_id prefix tag price tariff_name budget

  abbrev on_tariff :
      Runtime
      → Database W
      → StartMessage W
      → ChargerKeys
      → String
      → String
      → RfidTag W
      → Wallet W
      → Option (Tariff W)
      → StartResult W
  on_tariff rt db msg charger charger_id prefix tag wallet none =
      refused db msg "No matching tariff price type found for user"
  on_tariff rt db msg charger charger_id prefix tag wallet (some price) =
      let budget =
        calculate_energy db charger tag.user_id tag.fleet_id wallet (number_or_zero tag.max_amount)
          price in
      if le budget.final_usable_amount (of_ℕ 0)
      then refused db msg "Final Usable Amount less than or equal to 0"
      else insert_for rt db msg charger charger.client_id charger_id prefix tag price
          (type_name (tariff_user_type db (some price))) budget

  abbrev on_wallet :
      Runtime
      → Database W
      → StartMessage W
      → ChargerKeys
      → String
      → String
      → RfidTag W
      → Option (Wallet W)
      → StartResult W
  on_wallet rt db msg charger charger_id prefix tag none = refused db msg "Insufficient balance"
  on_wallet rt db msg charger charger_id prefix tag (some wallet) =
      if le (as_number wallet.balance) (of_ℕ 10)
      then refused db msg "Insufficient balance"
      else on_tariff rt db msg charger charger_id prefix tag wallet (
          required_tariff db charger
            (rfid_user_type rt db charger tag.fleet_id tag.fleet_group_id tag.user_id))

  abbrev on_tag :
      Runtime
      → Database W
      → StartMessage W
      → ChargerKeys
      → String
      → String
      → Option (RfidTag W)
      → StartResult W
  on_tag rt db msg charger charger_id prefix none = refused db msg "Invalid RFID tag"
  on_tag rt db msg charger charger_id prefix (some tag) =
      if tag_expired rt tag.expiry_date
      then refused db msg "RFID tag has expired"
      else if occupied db charger_id (rt.show msg.connector_id)
      then (db, [], refuse msg.uuid concurrent_tx (note "Connector is Already Occupied"))
      else on_wallet rt db msg charger charger_id prefix tag (wallet_of db tag.user_id tag.fleet_id)

  unfoldable pub handle_rfid_flow :
      Runtime → Database W → StartMessage W → ChargerKeys → String → String → String → StartResult W
  handle_rfid_flow rt db msg charger charger_id id_tag prefix =
      on_tag rt db msg charger charger_id prefix (rfid_tag_of db id_tag charger.client_id)
