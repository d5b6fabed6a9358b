-- ===== src/Ocpp/Stop.antt =====
-- v16/handlers/stop-transaction.handler.ts: the end of a charging session. `handle` answers with
-- the database after the call, the calls to other systems in order, and the response.
pub mod Reading
pub mod Price
pub mod Payment
pub mod Cases
pub mod Once
pub mod Ledger
pub mod Thrown
pub mod Refused
pub mod Silent
pub mod Tests
use nest_js_project.Prelude.{
  ℕ, Bool, true, false, ◌&&◌, not, Option, none, some, List, [], ◌∷◌, ◌++◌, String, if◌then◌else◌,
  ◌===◌, find_one, holds, or_else, get_or_else, is_some, filled,
}
use nest_js_project.Schema.{
  ChannelSource, SessionStatus, DeviceTransaction, ChargingSession, Charger, Wallet, UserType,
  Database,
}
use nest_js_project.Number.{Number}
use nest_js_project.Ocpp.Runtime.{Runtime}
use nest_js_project.Ocpp.Effect.{Effect, emit_to_room, push_notification}
use nest_js_project.Store.{update_transaction, update_session, transaction_of, session_of}
use Reading.{StopMessage, stop_source, record_stop, total_wh}
use Price.{Actor, Settlement, settlement}
use Payment.{
  Bill, bill_of, record_bill, handle_wallet_deduction, handle_qr_pay_stop, handle_ocpi_stop,
}

-- The frame `[3, uuid, { idTagInfo }]`, or what the admin's stop gets.
pub data StopReply : Type 0 where
  accepted invalid : String → StopReply
  admin_stopped admin_failed : StopReply

abbrev pub StopResult : Type 0 → Type 0
StopResult W = Database W × List (Effect W) × StopReply

abbrev pub refusal : Bool → String → StopReply
refusal true uuid = admin_failed
refusal false uuid = invalid uuid

abbrev pub approval : Bool → String → StopReply
approval true uuid = admin_stopped
approval false uuid = accepted uuid

-- `resolvedTariffName`.
abbrev pub tariff_name_of : Option ChannelSource → Option UserType → String
tariff_name_of (some ChannelSource.roaming) type = "ROAMING"
tariff_name_of (some ChannelSource.qrpay) type = "QR_PAYMENT_TARIFF"
tariff_name_of _ none = "Standard"
tariff_name_of _ (some type) = type.name

abbrev pub is_ocpi : Option ChannelSource → Bool
is_ocpi (some ChannelSource.ocpi) = true
is_ocpi _ = false

-- The platforms whose sessions are paid from a wallet, which has to be there.
abbrev pub pays_from_wallet : Option ChannelSource → Bool
pays_from_wallet (some ChannelSource.ocpi) = false
pays_from_wallet (some ChannelSource.qrpay) = false
pays_from_wallet _ = true

module _ {W : Type 0} ⦃num : Number W⦄ where
  unfoldable pub complete_session :
      Option String → String → ChargingSession W → ChargingSession W → ChargingSession W
  complete_session reason tariff_name session row = record row {
    reason = some (get_or_else (or_else session.reason reason) "Other");
    stop_from = or_else session.stop_from (some (stop_source reason));
    status = some SessionStatus.completed;
    tariff_name = some tariff_name;
  }

  abbrev pub push_to : Option ℕ → Option Actor → List (Effect W)
  push_to none user = []
  push_to (some id) none = []
  push_to (some id) (some user) =
      if filled user.fcm_token
      then push_notification user.client_id (get_or_else user.fcm_token "") "charging-end" ∷ []
      else []

  abbrev pub notices : ChargingSession W → DeviceTransaction W → Option Actor → List (Effect W)
  notices session dt user =
      (if is_ocpi session.platform
        then []
        else emit_to_room session.session_id "StopTransaction" ∷ [])
      ++ push_to dt.user_id user

  -- The branch on `platform` after the bill: who pays, and how.
  unfoldable pub collect :
      Runtime
      → Database W
      → ChargingSession W
      → DeviceTransaction W
      → Option Charger
      → Settlement W
      → Bill W
      → Option ChannelSource
      → Option (Wallet W)
      → Database W × List (Effect W)
  unfolding handle_wallet_deduction handle_qr_pay_stop handle_ocpi_stop
  collect rt db session dt charger how bill (some ChannelSource.ocpi) wallet =
      (db, handle_ocpi_stop db session charger how.required_price bill)
  collect rt db session dt charger how bill (some ChannelSource.qrpay) wallet =
      handle_qr_pay_stop db session dt bill.total_amount
  collect rt db session dt charger how bill _ none = (db, [])
  collect rt db session dt charger how bill _ (some wallet) =
      (handle_wallet_deduction rt db wallet bill.total_amount dt charger how.user, [])

  -- From the bill to the response. The row `dt` is the one read before the updates.
  unfoldable pub settle :
      Runtime
      → Database W
      → StopMessage W
      → DeviceTransaction W
      → ChargingSession W
      → Option Charger
      → Settlement W
      → StopResult W
  settle rt db msg dt session charger how =
      let bill = bill_of how.required_price (total_wh msg dt) in
      let tariff_name = tariff_name_of session.platform how.tariff_type in
      let billed = update_transaction dt.id (record_bill bill tariff_name) db in
      let (paid, calls) =
        collect rt billed session dt charger how bill session.platform how.wallet in
      (
        update_session session.id (complete_session msg.reason tariff_name session) paid,
        calls ++ notices session dt how.user,
        approval msg.is_abnormal_admin_stop msg.uuid,
      )

  -- The database after the stop is recorded, and what the session is settled with.
  abbrev pub stopped_of : Runtime → Database W → StopMessage W → DeviceTransaction W → Database W
  stopped_of rt db msg dt = update_transaction dt.id (record_stop rt msg dt) db

  abbrev pub charger_of : Database W → DeviceTransaction W → Option Charger
  charger_of db dt = find_one (λ c. c.charger_id === get_or_else dt.charger_id "") db.chargers

  -- The price, the wallet and the user. They are read from tables that the stop did not touch.
  abbrev pub how_settled :
      Runtime → Database W → DeviceTransaction W → ChargingSession W → Settlement W
  how_settled rt db dt session = settlement rt db dt session (charger_of db dt) session.platform

  -- The stop is recorded first; a wallet that is missing is found only after that.
  unfoldable pub stop_session :
      Runtime → Database W → StopMessage W → DeviceTransaction W → ChargingSession W → StopResult W
  stop_session rt db msg dt session =
      let how = how_settled rt db dt session in
      if pays_from_wallet session.platform && not (is_some how.wallet)
      then (stopped_of rt db msg dt, [], invalid msg.uuid)
      else settle rt (stopped_of rt db msg dt) msg dt session (charger_of db dt) how

  abbrev on_session :
      Runtime
      → Database W
      → StopMessage W
      → DeviceTransaction W
      → Option (ChargingSession W)
      → StopResult W
  on_session rt db msg dt none = (db, [], refusal msg.is_abnormal_admin_stop msg.uuid)
  on_session rt db msg dt (some session) = stop_session rt db msg dt session

  abbrev pub is_settled : DeviceTransaction W → Bool
  is_settled dt = holds dt.status (some 1)

  abbrev on_transaction :
      Runtime → Database W → StopMessage W → Option (DeviceTransaction W) → StopResult W
  on_transaction rt db msg none = (db, [], refusal msg.is_abnormal_admin_stop msg.uuid)
  on_transaction rt db msg (some dt) =
      if is_settled dt
      then (db, [], refusal msg.is_abnormal_admin_stop msg.uuid)
      else on_session rt db msg dt (session_of db dt)

  unfoldable pub handle : Runtime → Database W → StopMessage W → StopResult W
  handle rt db msg = on_transaction rt db msg (transaction_of db msg.transaction_id)
