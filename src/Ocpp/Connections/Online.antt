-- ===== src/Ocpp/Connections/Online.antt =====
-- What `handleConnection` of gateway.ts does to the database once a charger is registered anew: it
-- is active again, and its connectors charge or are available.
use nest_js_project.Prelude.{
  Bool, true, false, ◌&&◌, Option, none, some, List, [], ◌∷◌, String, if◌then◌else◌, ◌===◌,
  find_one, holds, holds_text, is_some,
}
use nest_js_project.Schema.{ChargerStatus, ConnectorStatus, Charger, Connector, Database}
use nest_js_project.Ocpp.Connections.{set_charger, set_connector, connectors_of}

abbrev is_inactive : ChargerStatus → Bool
is_inactive ChargerStatus.inactive = true
is_inactive _ = false

abbrev is_charging : ConnectorStatus → Bool
is_charging ConnectorStatus.charging = true
is_charging _ = false

abbrev is_available : ConnectorStatus → Bool
is_available ConnectorStatus.available = true
is_available _ = false

module _ {W : Type 0} where
  abbrev pub runs_at : String → Charger → Connector → Database W → Bool
  runs_at charger_id charger cn db = is_some (
      find_one
        (λ r.
          holds_text r.connector_id (some cn.connector_id)
          && holds_text r.charger_id (some charger_id)
          && holds r.charger_ref (some charger.id)
          && holds r.status (some 0))
        db.device_transactions)

  -- `newStatus`, written where it differs.
  unfoldable pub reconcile : String → Charger → Connector → Database W → Database W
  reconcile charger_id charger cn db =
      if runs_at charger_id charger cn db
      then (if is_charging cn.status then db else set_connector ConnectorStatus.charging cn db)
      else (if is_available cn.status then db else set_connector ConnectorStatus.available cn db)

  unfoldable pub reconcile_all : String → Charger → List Connector → Database W → Database W
  reconcile_all charger_id charger [] db = db
  reconcile_all charger_id charger (cn ∷ cns) db =
      reconcile_all charger_id charger cns (reconcile charger_id charger cn db)

  abbrev online : String → Option Charger → Database W → Database W
  online charger_id none db = db
  online charger_id (some charger) db =
      let active = set_charger ChargerStatus.active (some charger) db in
      reconcile_all charger_id charger (connectors_of (some charger) active) active

  unfoldable pub come_online : String → Database W → Database W
  come_online charger_id db =
      online charger_id
        (find_one (λ c. (c.charger_id === charger_id) && is_inactive c.status) db.chargers) db
