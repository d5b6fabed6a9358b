-- ===== src/Ocpp/Status.antt =====
-- apps/ocpp-gateway/src/v16/handlers/status-notification.handler.ts: a connector changes its status.
-- `patch_ocpi_status` goes as far as the query for the partners that know the charger; what is sent to
-- each of them is an effect. Failures of the database are not represented; a status that the column's
-- enum does not have is one of them.
pub mod Lost
mod Tests
use nest_js_project.Prelude.{
  ℕ, Bool, true, false, not, ◌&&◌, Option, none, some, List, [], ◌∷◌, ◌++◌, String, if◌then◌else◌,
  ◌===◌, ◌==◌, find_one, find_all, update_where, holds, holds_text, filled, get_or_else,
}
use nest_js_project.Schema.{
  ChannelSource, SessionStatus, ChargerStatus, ConnectorStatus, is_initiated, DeviceTransaction,
  ChargingSession, Charger, Connector, Database,
}
use nest_js_project.Ocpp.Raw.{ChargerKeys, undefined, raw_keys}

-- The payload `message[3]`.
pub record StatusMessage : Type 0 where
  pub uuid : String
  pub connector_id : ℕ
  pub status : ConnectorStatus
  pub info : Option String

-- The columns of a station that the query joins.
pub record JoinedStation : Type 0 where
  pub id : ℕ
  pub station_unique_id : Option String

-- A row of ocpipushstations with the partner that it joins, where that is connected.
pub record PushStation : Type 0 where
  pub charger_id : ℕ
  pub emsp_id : ℕ
  pub client_id : ℕ

pub record StatusRuntime : Type 0 where
  pub show : ℕ → String  -- `String(n)`
  pub stations : List JoinedStation  -- the table of stations, which the handler only reads
  pub push_stations : List PushStation  -- ocpipushstations, joined with its connected partner

pub data StatusEffect : Type 0 where
  emit_status : String → ConnectorStatus → String → StatusEffect
  patch_partner : ℕ → ℕ → String → ConnectorStatus → ℕ → StatusEffect

-- `statusHandlers`.
unfoldable pub user_message : ConnectorStatus → String
user_message ConnectorStatus.finishing =
    "Your charging session has been completed. You are being redirected to the home page."
user_message ConnectorStatus.preparing = "Gun Connected, You can Start Now ..."
user_message ConnectorStatus.charging = "Charging has started."
user_message ConnectorStatus.reserved = "The connector is reserved."
user_message ConnectorStatus.faulted =
    "Sorry for the inconvenience. We will resolve the problem as soon as possible."
user_message ConnectorStatus.unavailable =
    "Sorry for the inconvenience, the connector is unavailable."
user_message ConnectorStatus.available = "The connector is available now. Please connect and use."
user_message ConnectorStatus.suspended_ev =
    "Sorry for the inconvenience. We will resolve the problem as soon as possible."
user_message _ = "Unknown status."

abbrev pub is_free : ConnectorStatus → Bool
is_free ConnectorStatus.available = true
is_free _ = false

-- `platform NOT IN ('QRPAY')`, which a missing platform does not meet either.
abbrev pub is_not_qrpay : Option ChannelSource → Bool
is_not_qrpay none = false
is_not_qrpay (some ChannelSource.qrpay) = false
is_not_qrpay (some _) = true

abbrev pub on_connector : StatusRuntime → Option ℕ → StatusMessage → Connector → Bool
on_connector rt charger_ref msg cn =
    holds (some cn.charger_id) charger_ref && cn.connector_id === rt.show msg.connector_id

-- `connector.id`, where the key of the row is `cn_id`.
abbrev raw_connector_id : Connector → Option ℕ
raw_connector_id cn = undefined

unfoldable pub note_connector : StatusMessage → Option ℕ → List Connector → List Connector
note_connector msg id connectors =
    update_where (λ cn. holds (some cn.id) id)
      (λ cn. record cn {
        status = msg.status;
        info = if filled msg.info then msg.info else some "No Error";
      })
      connectors

-- `update chargers set status = 'Active' where id`: `charger.status` is undefined, which is not Active.
unfoldable pub activate_charger : Option ℕ → List Charger → List Charger
activate_charger id chargers =
    update_where (λ c. holds (some c.id) id) (λ c. record c { status = ChargerStatus.active })
      chargers

abbrev pub partners_at : StatusRuntime → Option ℕ → Option ℕ → List PushStation
partners_at rt charger_ref client_id =
    find_all (λ ps. holds (some ps.charger_id) charger_ref && holds (some ps.client_id) client_id)
      rt.push_stations

abbrev patch_each : ℕ → String → StatusMessage → List PushStation → List StatusEffect
patch_each station_id station_uid msg [] = []
patch_each station_id station_uid msg (ps ∷ rest) =
    patch_partner ps.emsp_id station_id station_uid msg.status msg.connector_id
    ∷ patch_each station_id station_uid msg rest

abbrev patch_found :
    StatusRuntime → JoinedStation → StatusMessage → Option ℕ → Option Charger → List StatusEffect
patch_found rt station msg client_id none = []
patch_found rt station msg client_id (some row) =
    patch_each station.id (get_or_else station.station_unique_id "") msg
      (partners_at rt (raw_keys row).id client_id)

-- `patchOcpiStatus`, whose charger is a row with the key `c_id`.
unfoldable pub patch_ocpi_status :
    StatusRuntime
    → List Charger
    → JoinedStation
    → Option String
    → StatusMessage
    → Option ℕ
    → List StatusEffect
patch_ocpi_status rt chargers station charger_id msg client_id =
    patch_found rt station msg client_id
      (find_one (λ c. holds_text (some c.charger_id) charger_id) chargers)

-- The station of a charger by the left join, and the patch that is started for it.
abbrev pub patch_station :
    StatusRuntime
    → List Charger
    → ChargerKeys
    → StatusMessage
    → Option JoinedStation
    → List StatusEffect
patch_station rt chargers charger msg none = []
patch_station rt chargers charger msg (some s) =
    patch_ocpi_status rt chargers s charger.charger_id msg charger.client_id

abbrev pub patches : StatusRuntime → List Charger → Charger → StatusMessage → List StatusEffect
patches rt chargers row msg =
    patch_station rt chargers (raw_keys row) msg
      (find_one (λ s. holds (some s.id) row.station_id) rt.stations)

module _ {W : Type 0} where
  unfoldable pub is_waiting : Option String → ℕ → ChargingSession W → Bool
  is_waiting charger_id connector_id s =
      holds_text s.charger_id charger_id
      && holds s.connector_id (some connector_id)
      && is_initiated s.status
      && is_not_qrpay s.platform

  abbrev pub set_not_started : ChargingSession W → ChargingSession W
  set_not_started s = record s { status = some SessionStatus.not_started }

  abbrev pub is_open_at : StatusRuntime → Option String → StatusMessage → DeviceTransaction W → Bool
  is_open_at rt charger_id msg dt =
      holds_text dt.charger_id charger_id
      && holds_text dt.connector_id (some (rt.show msg.connector_id))
      && holds dt.status (some 0)

  -- `activeTransaction.id`, where the key of the row is `dt_id`.
  abbrev raw_transaction_id : DeviceTransaction W → Option ℕ
  raw_transaction_id dt = undefined

  abbrev pub mark_abnormal :
      Option (DeviceTransaction W) → List (DeviceTransaction W) → List (DeviceTransaction W)
  mark_abnormal none dts = dts
  mark_abnormal (some active) dts =
      update_where (λ dt. holds (some dt.id) (raw_transaction_id active))
        (λ dt. record dt { is_abnormal_stop = true }) dts

  -- What is done when the connector is free again.
  abbrev pub freed : StatusRuntime → Database W → StatusMessage → ChargerKeys → Database W
  freed rt db msg charger = record db {
    charging_sessions =
        update_where (is_waiting charger.charger_id msg.connector_id) set_not_started
          db.charging_sessions;
    device_transactions =
        mark_abnormal (find_one (is_open_at rt charger.charger_id msg) db.device_transactions)
          db.device_transactions;
  }

  abbrev pub noted : Database W → StatusMessage → ChargerKeys → Connector → Database W
  noted db msg charger cn = record db {
    connectors = note_connector msg (raw_connector_id cn) db.connectors;
    chargers = activate_charger charger.id db.chargers;
  }

  abbrev pub on_known_connector :
      StatusRuntime
      → Database W
      → StatusMessage
      → String
      → ChargerKeys
      → Option Connector
      → Database W × List StatusEffect
  on_known_connector rt db msg charger_id charger none = (db, [])
  on_known_connector rt db msg charger_id charger (some cn) = (
    if is_free msg.status
        then freed rt (noted db msg charger cn) msg charger
        else noted db msg charger cn,
    emit_status charger_id msg.status (user_message msg.status) ∷ [],
  )

  abbrev pub on_known_charger :
      StatusRuntime
      → Database W
      → StatusMessage
      → String
      → Option Charger
      → Database W × List StatusEffect
  on_known_charger rt db msg charger_id none = (db, [])
  on_known_charger rt db msg charger_id (some row) =
      let charger = raw_keys row in
      let done =
        on_known_connector rt db msg charger_id charger
          (find_one (on_connector rt charger.id msg) db.connectors) in
      (done.0, done.1 ++ patches rt db.chargers row msg)

  -- The answer is `[3, uuid, {}]` on every branch.
  unfoldable pub handle :
      StatusRuntime → Database W → StatusMessage → String → Database W × List StatusEffect
  handle rt db msg charger_id =
      on_known_charger rt db msg charger_id
        (find_one (λ c. c.charger_id === charger_id) db.chargers)
