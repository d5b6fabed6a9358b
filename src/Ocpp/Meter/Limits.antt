-- ===== src/Ocpp/Meter/Limits.antt =====
-- What a reading may change, and when the charger is asked to stop: `handle` of
-- v16/handlers/meter-values.handler.ts.
use nest_js_project.Prelude.{
  ℕ, ◌≡◌, refl, ◌∙◌, inl, inr, Bool, Bool-cases, Option-cases, true, false, Option, some, none, map,
  String, ◌==◌, map-update_where,
}
use nest_js_project.Schema.{DeviceTransaction, ChargingSession, Database}
use nest_js_project.Number.{Number}
use nest_js_project.Ocpp.Runtime.{Runtime}
use nest_js_project.Store.{update_transaction, update_session, transaction_of, session_of}
use nest_js_project.Ocpp.Meter.Frame.{MeterMessage, MeterData, read_meter, is_transaction_begin}
use nest_js_project.Ocpp.Meter.Update.{
  record_begin, record_reading, energy_reached, percentage_reached, stop_by_server, end_by_server,
}
use nest_js_project.Ocpp.Meter.{stop_if, on_reading, on_session, on_transaction, on_number, handle}

module _ {W : Type 0} where
  abbrev billed : DeviceTransaction W → Option ℕ × Option ℕ × Option W
  billed r = (r.transaction_id, r.status, r.price)

  -- No money moved, no transaction was settled, reopened or priced, and no session changed its status.
  abbrev pub KeepsSettlement : Database W → Database W → Type 0
  KeepsSettlement db after =
      (after.wallets ≡ db.wallets)
      × (after.wallet_transactions ≡ db.wallet_transactions)
      × (map billed after.device_transactions ≡ map billed db.device_transactions)
      × (map (λ s. s.status) after.charging_sessions ≡ map (λ s. s.status) db.charging_sessions)

  update_transaction-KeepsSettlement :
      (db before : Database W) (id : ℕ) (set : DeviceTransaction W → DeviceTransaction W)
      → ((r : DeviceTransaction W) → billed (set r) ≡ billed r)
      → KeepsSettlement db before
      → KeepsSettlement db (update_transaction id set before)
  unfolding update_transaction
  update_transaction-KeepsSettlement db before id set keep
        (wallets, ledger, transactions, sessions) =
      (
        wallets,
        ledger,
        map-update_where billed (λ r. r.id == id) set keep before.device_transactions
            ∙ transactions,
        sessions,
      )

  update_session-KeepsSettlement :
      (db before : Database W) (id : ℕ) (set : ChargingSession W → ChargingSession W)
      → ((s : ChargingSession W) → (set s).status ≡ s.status)
      → KeepsSettlement db before
      → KeepsSettlement db (update_session id set before)
  unfolding update_session
  update_session-KeepsSettlement db before id set keep (wallets, ledger, transactions, sessions) = (
    wallets,
    ledger,
    transactions,
    map-update_where (λ s. s.status) (λ s. s.id == id) set keep before.charging_sessions ∙ sessions,
  )

module _ {W : Type 0} ⦃num : Number W⦄ where
  stop_if-KeepsSettlement :
      (db before : Database W) (reached : Bool) (reason : String) (n : ℕ) (dt : DeviceTransaction W)
      (session : ChargingSession W)
      → KeepsSettlement db before
      → KeepsSettlement db (stop_if reached reason n dt session before).0
  unfolding stop_if stop_by_server end_by_server
  stop_if-KeepsSettlement db before false reason n dt session keeps = keeps
  stop_if-KeepsSettlement db before true reason n dt session keeps =
      update_session-KeepsSettlement db (update_transaction dt.id (stop_by_server reason) before)
        session.id (end_by_server reason) (λ s. refl)
        (update_transaction-KeepsSettlement db before dt.id (stop_by_server reason) (λ r. refl)
          keeps)

  on_reading-KeepsSettlement :
      (rt : Runtime) (db : Database W) (n : ℕ) (meter_data : MeterData W) (dt : DeviceTransaction W)
      (session : ChargingSession W)
      → KeepsSettlement db (on_reading rt db n meter_data dt session).0
  unfolding on_reading record_reading
  on_reading-KeepsSettlement rt db n meter_data dt session =
      let noted = update_transaction dt.id (record_reading rt meter_data dt) db in
      let limited =
        (stop_if (energy_reached meter_data dt) "Max Energy Reached" n dt session noted).0 in
      stop_if-KeepsSettlement db limited (percentage_reached meter_data session)
        "Max Percentage Reached" n dt session
        (stop_if-KeepsSettlement db noted (energy_reached meter_data dt) "Max Energy Reached" n dt
          session
          (update_transaction-KeepsSettlement db db dt.id (record_reading rt meter_data dt)
            (λ r. refl) (refl, refl, refl, refl)))

  on_session-KeepsSettlement :
      (rt : Runtime) (db : Database W) (msg : MeterMessage W) (charger_id : String) (n : ℕ)
      (dt : DeviceTransaction W) (found : Option (ChargingSession W))
      → KeepsSettlement db (on_session rt db msg charger_id n dt found).0
  unfolding on_session record_begin
  on_session-KeepsSettlement rt db msg charger_id n dt none = (refl, refl, refl, refl)
  on_session-KeepsSettlement rt db msg charger_id n dt (some session) =
      elim (Bool-cases (is_transaction_begin msg)) [
        | inl begins ↦ rw begins (
            update_transaction-KeepsSettlement db db dt.id (record_begin (read_meter msg))
              (λ r. refl) (refl, refl, refl, refl))
        | inr runs ↦ rw runs (on_reading-KeepsSettlement rt db n (read_meter msg) dt session)
      ]

  on_number-KeepsSettlement :
      (rt : Runtime) (db : Database W) (msg : MeterMessage W) (charger_id : String)
      (number : Option ℕ)
      → KeepsSettlement db (on_number rt db msg charger_id number).0
  unfolding on_number on_transaction
  on_number-KeepsSettlement rt db msg charger_id none = (refl, refl, refl, refl)
  on_number-KeepsSettlement rt db msg charger_id (some n) = elim (Bool-cases (n == 0)) [
    | inl zero_number ↦ rw zero_number (refl, refl, refl, refl)
    | inr positive ↦ elim (Option-cases (transaction_of db n)) [
      | inl gone ↦ rw (positive, gone) (refl, refl, refl, refl)
      | inr (dt, found) ↦
          rw (positive, found)
            (on_session-KeepsSettlement rt db msg charger_id n dt (session_of db dt))
    ]
  ]

  -- A reading, whatever it says, moves no money, settles, reopens and prices no transaction, and
  -- changes the status of no session: only a stop does.
  pub readings_keep_settlement :
      (rt : Runtime) (db : Database W) (msg : MeterMessage W) (charger_id : String)
      → KeepsSettlement db (handle rt db msg charger_id).0
  unfolding handle
  readings_keep_settlement rt db msg charger_id =
      on_number-KeepsSettlement rt db msg charger_id msg.transaction_id
