-- ===== src/Ocpp/Start/Refused.antt =====
-- What StartTransaction comes to: `handle` of v16/handlers/start-transaction.handler.ts.
use nest_js_project.Prelude.{
  and_false, find_one-never, find_all-never, ◌≡◌, refl, Bool, true, false, ◌&&◌, Option, none, some,
  [], String, Bool-cases, inl, inr, ◌===◌, find_one, filled, get_or_else, holds, holds_text,
}
use nest_js_project.Prelude.Text.{starts_with, second_part}
use nest_js_project.Schema.{Charger, Vehicle, RfidTag, ChargingSession, Database}
use nest_js_project.Number.{Number}
use nest_js_project.Ocpp.Runtime.{Runtime}
use nest_js_project.Ocpp.Raw.{undefined, raw_keys}
use nest_js_project.Ocpp.Start.Frame.{StartMessage, StartResult, invalid, session_prefix}
use nest_js_project.Ocpp.Start.Session.{may_start, startable_session, newest, handle_session_flow}
use nest_js_project.Ocpp.Start.Rfid.{rfid_tag_of, handle_rfid_flow}
use nest_js_project.Ocpp.Start.Vid.{vehicle_of, handle_vid_flow}
use nest_js_project.Ocpp.Start.{handle, on_id_tag, on_charger}

two_and_false : (a b : Bool) → a && b && false ≡ false
two_and_false true b = and_false b
two_and_false false b = refl

module _ {W : Type 0} ⦃num : Number W⦄ where
  -- Nothing is written, nobody is called, and the answer is Invalid without a transaction.
  abbrev pub RefusedAs : Database W → StartResult W → Type 0
  RefusedAs db result =
      (result.0 ≡ db)
      × (result.1 ≡ [])
      × (result.2.status ≡ invalid)
      × (result.2.transaction_id ≡ none)

  -- No row belongs to an undefined client.
  no_session_found :
      (db : Database W) (id_tag : String) → startable_session db id_tag undefined ≡ none
  unfolding startable_session newest
  no_session_found db id_tag =
      rw
        (find_all-never
          (λ (s : ChargingSession W).
            holds_text s.session_id (some id_tag)
            && holds (some s.client_id) undefined
            && may_start s.status)
          (λ s. rw (and_false (holds_text s.session_id (some id_tag))) refl) db.charging_sessions)
        refl

  no_vehicle_found : (db : Database W) (vid : String) → vehicle_of db vid undefined ≡ none
  no_vehicle_found db vid =
      find_one-never
        (λ (v : Vehicle W).
          holds_text v.vin_number (some vid) && v.auto_charge && holds (some v.client_id) undefined)
        (λ v. two_and_false (holds_text v.vin_number (some vid)) v.auto_charge) db.vehicles

  no_tag_found : (db : Database W) (id_tag : String) → rfid_tag_of db id_tag undefined ≡ none
  no_tag_found db id_tag =
      find_one-never
        (λ (t : RfidTag W). (t.rf_id_tag === id_tag) && holds (some t.client_id) undefined)
        (λ t. and_false (t.rf_id_tag === id_tag)) db.rfid_tags

  session_flow-RefusedAs :
      (rt : Runtime) (db : Database W) (msg : StartMessage W) (row : Charger)
      (charger_id id_tag : String)
      → RefusedAs db (handle_session_flow rt db msg (raw_keys row) charger_id id_tag)
  unfolding handle_session_flow raw_keys
  session_flow-RefusedAs rt db msg row charger_id id_tag =
      rw (no_session_found db id_tag) (refl, refl, refl, refl)

  vid_flow-RefusedAs :
      (rt : Runtime) (db : Database W) (msg : StartMessage W) (row : Charger)
      (charger_id id_tag prefix : String)
      → RefusedAs db (handle_vid_flow rt db msg (raw_keys row) charger_id id_tag prefix)
  unfolding handle_vid_flow raw_keys
  vid_flow-RefusedAs rt db msg row charger_id id_tag prefix =
      elim (Bool-cases (filled (second_part id_tag))) [
        | inl given ↦
            rw (given, no_vehicle_found db (get_or_else (second_part id_tag) ""))
              (refl, refl, refl, refl)
        | inr missing ↦ rw missing (refl, refl, refl, refl)
      ]

  rfid_flow-RefusedAs :
      (rt : Runtime) (db : Database W) (msg : StartMessage W) (row : Charger)
      (charger_id id_tag prefix : String)
      → RefusedAs db (handle_rfid_flow rt db msg (raw_keys row) charger_id id_tag prefix)
  unfolding handle_rfid_flow raw_keys
  rfid_flow-RefusedAs rt db msg row charger_id id_tag prefix =
      rw (no_tag_found db id_tag) (refl, refl, refl, refl)

  on_charger-RefusedAs :
      (rt : Runtime) (db : Database W) (msg : StartMessage W) (charger_id id_tag : String)
      (found : Option Charger)
      → RefusedAs db (on_charger rt db msg charger_id id_tag found)
  unfolding on_charger
  on_charger-RefusedAs rt db msg charger_id id_tag none = (refl, refl, refl, refl)
  on_charger-RefusedAs rt db msg charger_id id_tag (some row) =
      let prefix = session_prefix db (raw_keys row).client_id in
      elim (Bool-cases (starts_with id_tag prefix)) [
        | inl booked ↦ rw booked (session_flow-RefusedAs rt db msg row charger_id id_tag)
        | inr other ↦ elim (Bool-cases (starts_with id_tag "VID")) [
          | inl vehicle ↦
              rw (other, vehicle) (vid_flow-RefusedAs rt db msg row charger_id id_tag prefix)
          | inr tag ↦ rw (other, tag) (rfid_flow-RefusedAs rt db msg row charger_id id_tag prefix)
        ]
      ]

  -- StartTransaction accepts nothing: whatever tag a charger sends, and whatever the database holds,
  -- the answer is Invalid without a transaction, nothing is written and nobody is called. The charger's
  -- client is read under a name that the row does not have, and no session, vehicle or tag belongs
  -- to no client.
  pub start_never_accepted :
      (rt : Runtime) (db : Database W) (msg : StartMessage W) (charger_id : String)
      → let (after, calls, reply) = handle rt db msg charger_id in
        (after ≡ db) × (calls ≡ []) × (reply.status ≡ invalid) × (reply.transaction_id ≡ none)
  unfolding handle on_id_tag
  start_never_accepted rt db msg charger_id = elim (Bool-cases (filled msg.id_tag)) [
    | inl given ↦ rw given (
        on_charger-RefusedAs rt db msg charger_id (get_or_else msg.id_tag "")
          (find_one (λ c. c.charger_id === charger_id) db.chargers))
    | inr missing ↦ rw missing (refl, refl, refl, refl)
  ]
