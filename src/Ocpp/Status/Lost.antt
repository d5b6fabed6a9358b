-- ===== src/Ocpp/Status/Lost.antt =====
-- What becomes of a connector's status: `handle` of v16/handlers/status-notification.handler.ts.
use nest_js_project.Prelude.{
  ◌≡◌, refl, Option, none, some, List, [], ◌∷◌, ◌===◌, String, find_one, Option-cases, inl, inr,
  holds, holds_text,
}
use nest_js_project.Schema.{Charger, Connector, Database}
use nest_js_project.Ocpp.Raw.{undefined, raw_keys}
use nest_js_project.Ocpp.Status.{
  StatusMessage, StatusRuntime, on_connector, patch_ocpi_status, patches, on_known_charger, handle,
}

-- No connector belongs to an undefined charger.
no_connector_found :
    (rt : StatusRuntime) (msg : StatusMessage) (rows : List Connector)
    → find_one (on_connector rt undefined msg) rows ≡ none
no_connector_found rt msg [] = refl
no_connector_found rt msg (r ∷ rs) = no_connector_found rt msg rs

no_charger_found :
    (rows : List Charger) → find_one (λ c. holds_text (some c.charger_id) undefined) rows ≡ none
no_charger_found [] = refl
no_charger_found (r ∷ rs) = no_charger_found rs

no_patches :
    (rt : StatusRuntime) (chargers : List Charger) (row : Charger) (msg : StatusMessage)
    → patches rt chargers row msg ≡ []
unfolding patch_ocpi_status raw_keys
no_patches rt chargers row msg =
    elim (Option-cases (find_one (λ s. holds (some s.id) row.station_id) rt.stations)) [
      | inl gone ↦ rw gone refl
      | inr (s, joined) ↦ rw (joined, no_charger_found chargers) refl
    ]

module _ {W : Type 0} where
  on_known_charger-lost :
      (rt : StatusRuntime) (db : Database W) (msg : StatusMessage) (charger_id : String)
      (found : Option Charger)
      → on_known_charger rt db msg charger_id found ≡ (db, [])
  unfolding raw_keys
  on_known_charger-lost rt db msg charger_id none = refl
  on_known_charger-lost rt db msg charger_id (some row) =
      rw (no_connector_found rt msg db.connectors, no_patches rt db.chargers row msg) refl

  -- A status that a charger reports, whichever it is, is lost: no connector, charger, session or
  -- transaction changes, and neither the charger's room nor a roaming partner is told.
  pub status_is_lost :
      (rt : StatusRuntime) (db : Database W) (msg : StatusMessage) (charger_id : String)
      → handle rt db msg charger_id ≡ (db, [])
  unfolding handle
  status_is_lost rt db msg charger_id =
      on_known_charger-lost rt db msg charger_id
        (find_one (λ c. c.charger_id === charger_id) db.chargers)
