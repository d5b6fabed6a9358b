-- ===== src/Ocpp/Stop/Thrown.antt =====
-- A stop in which a query throws: the catch branch of `handle` in
-- v16/handlers/stop-transaction.handler.ts. The database transaction is rolled back; a call to another
-- system that was made before is not.
use nest_js_project.Prelude.{◌&&◌, not, Option, none, some, [], is_some, if◌then◌else◌}
use nest_js_project.Schema.{DeviceTransaction, ChargingSession, Database}
use nest_js_project.Number.{Number}
use nest_js_project.Ocpp.Runtime.{Runtime}
use nest_js_project.Store.{update_transaction, transaction_of, session_of}
use nest_js_project.Ocpp.Stop.Reading.{StopMessage, total_wh}
use nest_js_project.Ocpp.Stop.Payment.{bill_of, record_bill}
use nest_js_project.Ocpp.Stop.{
  StopResult, invalid, refusal, pays_from_wallet, tariff_name_of, collect, stopped_of, charger_of,
  how_settled, is_settled, handle,
}

-- Where the error is thrown: before the branch on the platform that pays the bill, or after it, by the
-- update of the session or by the commit.
pub data Fault : Type 0 where
  before_payment after_payment : Fault

module _ {W : Type 0} ⦃num : Number W⦄ where
  -- The calls that the branch on the platform made, and the database as it was.
  unfoldable pub abandoned :
      Runtime → Database W → StopMessage W → DeviceTransaction W → ChargingSession W → StopResult W
  abandoned rt db msg dt session =
      let how = how_settled rt db dt session in
      let bill = bill_of how.required_price (total_wh msg dt) in
      let tariff_name = tariff_name_of session.platform how.tariff_type in
      let billed =
        update_transaction dt.id (record_bill bill tariff_name) (stopped_of rt db msg dt) in
      (
        db,
        (collect rt billed session dt (charger_of db dt) how bill session.platform how.wallet).1,
        refusal msg.is_abnormal_admin_stop msg.uuid,
      )

  abbrev pub throwing_session :
      Runtime
      → Database W
      → StopMessage W
      → DeviceTransaction W
      → Option (ChargingSession W)
      → StopResult W
  throwing_session rt db msg dt none = (db, [], refusal msg.is_abnormal_admin_stop msg.uuid)
  throwing_session rt db msg dt (some session) =
      if pays_from_wallet session.platform && not (is_some (how_settled rt db dt session).wallet)
      then (stopped_of rt db msg dt, [], invalid msg.uuid)
      else abandoned rt db msg dt session

  abbrev pub throwing_transaction :
      Runtime → Database W → StopMessage W → Option (DeviceTransaction W) → StopResult W
  throwing_transaction rt db msg none = (db, [], refusal msg.is_abnormal_admin_stop msg.uuid)
  throwing_transaction rt db msg (some dt) =
      if is_settled dt
      then (db, [], refusal msg.is_abnormal_admin_stop msg.uuid)
      else throwing_session rt db msg dt (session_of db dt)

  -- `handle` with the error that is thrown in it, if any. A call that returns before the branch on the
  -- platform does not come to an error after it.
  unfoldable pub handle_thrown : Runtime → Database W → StopMessage W → Option Fault → StopResult W
  unfolding handle abandoned
  handle_thrown rt db msg none = handle rt db msg
  handle_thrown rt db msg (some before_payment) =
      (db, [], refusal msg.is_abnormal_admin_stop msg.uuid)
  handle_thrown rt db msg (some after_payment) =
      throwing_transaction rt db msg (transaction_of db msg.transaction_id)
