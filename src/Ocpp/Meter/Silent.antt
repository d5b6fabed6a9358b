-- ===== src/Ocpp/Meter/Silent.antt =====
-- Whom a reading tells: `handle` of v16/handlers/meter-values.handler.ts.
use nest_js_project.Prelude.{
  ℕ, ◌≡◌, refl, Bool, Bool-cases, Option-cases, inl, inr, true, false, ◌&&◌, not, Option, none,
  some, [], ◌∷◌, String, All-append, if◌then◌else◌, ◌==◌, find_one, holds, filled,
}
use nest_js_project.Schema.{
  DeviceTransaction, ChargingSession, Charger, ClientDetail, User, Database,
}
use nest_js_project.Number.{Number, as_number}
use nest_js_project.Ocpp.Runtime.{Runtime}
use nest_js_project.Ocpp.Raw.{raw_keys}
use nest_js_project.Ocpp.Effect.{stays_here, emit_to_room}
use nest_js_project.Store.{update_transaction, transaction_of, session_of}
use nest_js_project.Ocpp.Stop.Price.{Price, ocpi_price}
use nest_js_project.Ocpp.Stop.Payment.{Bill, bill_of, raw_party_id}
use nest_js_project.Ocpp.Stop.Silent.{StaysHere}
use nest_js_project.Ocpp.Meter.Frame.{MeterMessage, MeterData, read_meter, is_transaction_begin}
use nest_js_project.Ocpp.Meter.Update.{record_reading, energy_reached, percentage_reached}
use nest_js_project.Ocpp.Meter.{
  is_ocpi, push_to, push_soc, is_milestone, soc_push, patch_with, patch_at,
  patch_ocpi_session_on_meter_value, stop_if, on_reading, on_session, on_transaction, on_number,
  handle,
}

module _ {W : Type 0} ⦃num : Number W⦄ where
  push_to-none : (user : Option User) → push_to {W = W} user ≡ []
  push_to-none none = refl
  push_to-none (some u) = refl

  push_soc-none :
      (db : Database W) (soc last : W) (user_id : Option ℕ) → push_soc db soc last user_id ≡ []
  push_soc-none db soc last none = refl
  push_soc-none db soc last (some user_id) =
      elim (Bool-cases (is_milestone soc && not (num.eq last soc))) [
        | inl now ↦ rw now (push_to-none (find_one (λ u. u.id == user_id) db.users))
        | inr later ↦ rw later refl
      ]

  no_party :
      (found : Option (ClientDetail W)) (price : Option (Price W)) (bill : Bill W)
      (session : ChargingSession W)
      → patch_with price bill (filled (raw_party_id found)) session ≡ []
  no_party none price bill session = refl
  no_party (some d) price bill session = refl

  patch_at-none :
      (db : Database W) (session : ChargingSession W) (dt : DeviceTransaction W)
      (charger : Option Charger)
      → patch_at db session dt charger ≡ []
  patch_at-none db session dt none = refl
  patch_at-none db session dt (some charger) =
      let price = ocpi_price db (some (raw_keys charger)) session in
      no_party (find_one (λ d. d.client_id == session.client_id) db.client_details) price
        (bill_of price (as_number dt.total_wh)) session

  patch_if-none :
      (db : Database W) (session : ChargingSession W) (dt : DeviceTransaction W) (b : Bool)
      → (if b then patch_ocpi_session_on_meter_value db session dt else []) ≡ []
  unfolding patch_ocpi_session_on_meter_value
  patch_if-none db session dt true =
      patch_at-none db session dt
        (find_one (λ c. holds (some c.id) session.charger_ref) db.chargers)
  patch_if-none db session dt false = refl

  stop_if-StaysHere :
      (reached : Bool) (reason : String) (n : ℕ) (dt : DeviceTransaction W)
      (session : ChargingSession W) (db : Database W)
      → StaysHere (stop_if reached reason n dt session db).1
  unfolding stop_if
  stop_if-StaysHere false reason n dt session db = tt
  stop_if-StaysHere true reason n dt session db = (refl, tt)

  on_reading-StaysHere :
      (rt : Runtime) (db : Database W) (n : ℕ) (meter_data : MeterData W) (dt : DeviceTransaction W)
      (session : ChargingSession W)
      → StaysHere (on_reading rt db n meter_data dt session).1
  unfolding on_reading soc_push
  on_reading-StaysHere rt db n meter_data dt session =
      let noted = update_transaction dt.id (record_reading rt meter_data dt) db in
      let limited =
        stop_if (energy_reached meter_data dt) "Max Energy Reached" n dt session noted in
      let final =
        stop_if (percentage_reached meter_data session) "Max Percentage Reached" n dt session
          limited.0 in
      rw
        (
          push_soc-none db (as_number meter_data.soc) (as_number dt.stop_soc) session.user_id,
          patch_if-none noted session dt
              (is_ocpi session.platform && not (holds dt.status (some 1))),
        )
        (All-append (λ e. stays_here e ≡ true) limited.1 final.1
          (stop_if-StaysHere (energy_reached meter_data dt) "Max Energy Reached" n dt session noted)
          (stop_if-StaysHere (percentage_reached meter_data session) "Max Percentage Reached" n dt
            session limited.0))

  on_session-StaysHere :
      (rt : Runtime) (db : Database W) (msg : MeterMessage W) (charger_id : String) (n : ℕ)
      (dt : DeviceTransaction W) (found : Option (ChargingSession W))
      → StaysHere (on_session rt db msg charger_id n dt found).1
  unfolding on_session
  on_session-StaysHere rt db msg charger_id n dt none = tt
  on_session-StaysHere rt db msg charger_id n dt (some session) =
      elim (Bool-cases (is_transaction_begin msg)) [
        | inl begins ↦ rw begins (refl, tt)
        | inr runs ↦ rw runs (
            All-append (λ e. stays_here e ≡ true) (on_reading rt db n (read_meter msg) dt session).1
              (emit_to_room session.session_id "meterValue" ∷ [])
              (on_reading-StaysHere rt db n (read_meter msg) dt session) (refl, tt))
      ]

  on_number-StaysHere :
      (rt : Runtime) (db : Database W) (msg : MeterMessage W) (charger_id : String)
      (number : Option ℕ)
      → StaysHere (on_number rt db msg charger_id number).1
  unfolding on_number on_transaction
  on_number-StaysHere rt db msg charger_id none = tt
  on_number-StaysHere rt db msg charger_id (some n) = elim (Bool-cases (n == 0)) [
    | inl zero_number ↦ rw zero_number tt
    | inr positive ↦ elim (Option-cases (transaction_of db n)) [
      | inl gone ↦ rw (positive, gone) tt
      | inr (dt, found) ↦
          rw (positive, found) (on_session-StaysHere rt db msg charger_id n dt (session_of db dt))
    ]
  ]

  -- No reading is told to the user's phone or to a roaming partner, not at 80 or 100 percent of charge
  -- and not in a roaming session: every call that it makes is an event in the session's room or a stop
  -- for the charger.
  pub reading-StaysHere :
      (rt : Runtime) (db : Database W) (msg : MeterMessage W) (charger_id : String)
      → StaysHere (handle rt db msg charger_id).1
  unfolding handle
  reading-StaysHere rt db msg charger_id =
      on_number-StaysHere rt db msg charger_id msg.transaction_id
