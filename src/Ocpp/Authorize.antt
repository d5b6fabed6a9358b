-- ===== src/Ocpp/Authorize.antt =====
-- apps/ocpp-gateway/src/v16/handlers/authorize.handler.ts: whether a charger may serve a tag. Failures
-- of the database, which are answered Invalid, are not represented.
pub mod Known
mod Tests
use nest_js_project.Prelude.{
  ℕ, ◌+◌, ◌*◌, Bool, true, false, ◌&&◌, Option, none, some, String, if◌then◌else◌, ◌===◌, ◌==◌,
  find_one, holds, holds_text, is_some, filled, get_or_else, ltb,
}
use nest_js_project.Prelude.Text.{starts_with, second_part}
use nest_js_project.Schema.{ChargingSession, Charger, Feature, RfidTag, Database}
use nest_js_project.Ocpp.Runtime.{Runtime}
use nest_js_project.Ocpp.Start.Frame.{session_prefix}
use nest_js_project.Ocpp.Start.Rfid.{rfid_tag_of}
use nest_js_project.Ocpp.Start.Vid.{vehicle_of}

pub record AuthorizeMessage : Type 0 where
  pub uuid : String
  pub id_tag : Option String

pub data AuthorizeStatus : Type 0 where
  accepted invalid expired : AuthorizeStatus

pub record AuthorizeReply : Type 0 where
  pub uuid : String
  pub status : AuthorizeStatus
  pub parent_id_tag : Option String
  pub expiry_date : Option ℕ

abbrev pub reply : String → AuthorizeStatus → AuthorizeReply
reply uuid status = record {
  uuid = uuid;
  status = status;
  parent_id_tag = none;
  expiry_date = none;
}

abbrev pub accepted_if : Bool → AuthorizeStatus
accepted_if there = if there then AuthorizeStatus.accepted else AuthorizeStatus.invalid

-- `expiryDate`, ten minutes from now.
abbrev pub expire_after : Runtime → ℕ
expire_after rt = rt.now + 10 * 60 * 1000

abbrev pub expired_on : Runtime → Option ℕ → Bool
expired_on rt none = false
expired_on rt (some date) = ltb (rt.day_end date) rt.now

module _ {W : Type 0} where
  abbrev pub is_session_of : String → ℕ → ChargingSession W → Bool
  is_session_of id_tag client_id s =
      holds_text s.session_id (some id_tag) && s.client_id == client_id

  unfoldable pub authorize_session : Database W → String → Charger → String → AuthorizeReply
  authorize_session db uuid charger id_tag = reply uuid (
      accepted_if
        (is_some (find_one (is_session_of id_tag charger.client_id) db.charging_sessions)))

  -- The join with the permissions, on the vendor alone: the second `where` of the query replaces the
  -- condition on the feature's name.
  abbrev pub is_granted : Database W → Option ℕ → Feature → Bool
  is_granted db vendor_id f = is_some (
      find_one (λ p. p.feature_id == f.id && holds (some p.vendor_id) vendor_id)
        db.feature_permissions)

  unfoldable pub has_any_feature : Database W → Option ℕ → Bool
  has_any_feature db vendor_id = is_some (find_one (is_granted db vendor_id) db.features)

  abbrev pub authorize_vehicle : Database W → String → Charger → Option String → AuthorizeReply
  authorize_vehicle db uuid charger vid =
      if filled vid
      then (if has_any_feature db charger.vendor_id
          then reply uuid
              (accepted_if (is_some (vehicle_of db (get_or_else vid "") (some charger.client_id))))
          else reply uuid AuthorizeStatus.invalid)
      else reply uuid AuthorizeStatus.invalid

  abbrev pub tag_text : Option (RfidTag W) → Option String
  tag_text none = none
  tag_text (some t) = if filled (some t.rf_id_tag) then some t.rf_id_tag else none

  -- The left join with the master tag.
  unfoldable pub master_tag : Database W → RfidTag W → Option String
  master_tag db tag = tag_text (find_one (λ t. holds tag.master_rfid_tag (some t.id)) db.rfid_tags)

  abbrev pub authorize_rfid : Runtime → Database W → String → Option (RfidTag W) → AuthorizeReply
  authorize_rfid rt db uuid none = reply uuid AuthorizeStatus.invalid
  authorize_rfid rt db uuid (some tag) =
      if expired_on rt tag.expiry_date then reply uuid AuthorizeStatus.expired else record {
        uuid = uuid;
        status = AuthorizeStatus.accepted;
        parent_id_tag = master_tag db tag;
        expiry_date = some (expire_after rt);
      }

  unfoldable pub authorize_at :
      Runtime → Database W → String → String → Option Charger → AuthorizeReply
  authorize_at rt db uuid id_tag none = reply uuid AuthorizeStatus.invalid
  authorize_at rt db uuid id_tag (some charger) =
      if starts_with id_tag (session_prefix db (some charger.client_id))
      then authorize_session db uuid charger id_tag
      else if starts_with id_tag "VID"
      then authorize_vehicle db uuid charger (second_part id_tag)
      else authorize_rfid rt db uuid (rfid_tag_of db id_tag (some charger.client_id))

  unfoldable pub authorize_tag :
      Runtime → Database W → String → String → Option String → AuthorizeReply
  authorize_tag rt db uuid charger_id id_tag =
      if filled id_tag
      then authorize_at rt db uuid (get_or_else id_tag "")
          (find_one (λ c. c.charger_id === charger_id) db.chargers)
      else reply uuid AuthorizeStatus.invalid

  unfoldable pub handle : Runtime → Database W → AuthorizeMessage → String → AuthorizeReply
  handle rt db msg charger_id = authorize_tag rt db msg.uuid charger_id msg.id_tag
