-- ===== src/Ocpp/Start.antt =====
-- v16/handlers/start-transaction.handler.ts: the start of a charging session. `handle` answers with
-- the database after the call, the calls to other systems in order, and the frame for the charger.
-- The flows of Session, Vid and Rfid take the object `charger` as it is given to them.
pub mod Frame
pub mod Session
pub mod Energy
pub mod Rfid
pub mod Vid
pub mod Refused
mod Tests
use nest_js_project.Prelude.{
  Option, none, some, [], String, if◌then◌else◌, ◌===◌, find_one, filled, get_or_else,
}
use nest_js_project.Prelude.Text.{starts_with}
use nest_js_project.Schema.{Charger, Database}
use nest_js_project.Number.{Number}
use nest_js_project.Ocpp.Runtime.{Runtime}
use nest_js_project.Ocpp.Raw.{raw_keys}
use Frame.{StartMessage, StartResult, invalid, no_info, refuse, session_prefix}
use Session.{handle_session_flow}
use Rfid.{handle_rfid_flow}
use Vid.{handle_vid_flow}

module _ {W : Type 0} ⦃num : Number W⦄ where
  -- What the tag begins with tells a booked session, a vehicle and an RFID tag apart.
  unfoldable pub on_charger :
      Runtime → Database W → StartMessage W → String → String → Option Charger → StartResult W
  on_charger rt db msg charger_id id_tag none = (db, [], refuse msg.uuid invalid no_info)
  on_charger rt db msg charger_id id_tag (some row) =
      let charger = raw_keys row in
      if starts_with id_tag (session_prefix db charger.client_id)
      then handle_session_flow rt db msg charger charger_id id_tag
      else if starts_with id_tag "VID"
      then handle_vid_flow rt db msg charger charger_id id_tag (session_prefix db charger.client_id)
      else handle_rfid_flow rt db msg charger charger_id id_tag
          (session_prefix db charger.client_id)

  unfoldable pub on_id_tag :
      Runtime → Database W → StartMessage W → String → Option String → StartResult W
  on_id_tag rt db msg charger_id id_tag =
      if filled id_tag
      then on_charger rt db msg charger_id (get_or_else id_tag "")
          (find_one (λ c. c.charger_id === charger_id) db.chargers)
      else (db, [], refuse msg.uuid invalid no_info)

  unfoldable pub handle : Runtime → Database W → StartMessage W → String → StartResult W
  handle rt db msg charger_id = on_id_tag rt db msg charger_id msg.id_tag
