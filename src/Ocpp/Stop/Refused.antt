-- ===== src/Ocpp/Stop/Refused.antt =====
-- What a stop that is refused, by a check or by a thrown error, leaves behind: `handle` of v16/handlers/stop-transaction.handler.ts.
use nest_js_project.Prelude.{
  ◌≡◌, ◌≢◌, String, refl, true, false, ◌&&◌, not, none, some, [], Option, Bool, Bool-cases,
  Option-cases, inl, inr, is_some,
}
use nest_js_project.Schema.{Charger, DeviceTransaction, ChargingSession, Database}
use nest_js_project.Ocpp.Stop.Price.{Settlement}
use nest_js_project.Number.{Number}
use nest_js_project.Ocpp.Runtime.{Runtime}
use nest_js_project.Store.{
  transaction_of, session_of, update_transaction, transaction_of-update_self,
}
use nest_js_project.Ocpp.Stop.Reading.{StopMessage, record_stop, last_meter_value}
use nest_js_project.Ocpp.Stop.{
  StopResult, invalid, approval, pays_from_wallet, is_settled, stopped_of, charger_of, how_settled,
  settle, stop_session, handle,
}
use nest_js_project.Ocpp.Stop.Cases.{handle_cases, stop_session_cases}
use nest_js_project.Ocpp.Stop.Once.{is_approval}
use nest_js_project.Ocpp.Stop.Thrown.{
  Fault, before_payment, after_payment, abandoned, throwing_transaction, handle_thrown,
}

abbrev pub is_late : Option Fault → Bool
is_late (some after_payment) = true
is_late _ = false

approval_approves : (b : Bool) (uuid : String) → is_approval (approval b uuid) ≢ false
approval_approves true uuid h = cc
approval_approves false uuid h = cc

module _ {W : Type 0} ⦃num : Number W⦄ where
  abbrev KeepsMoney : Database W → StopResult W → Type 0
  KeepsMoney db result =
      is_approval result.2 ≡ false
      → (result.0.wallets ≡ db.wallets)
        × (result.0.wallet_transactions ≡ db.wallet_transactions)
        × (result.0.charging_sessions ≡ db.charging_sessions)
        × (result.1 ≡ [])

  abbrev MoneyKept : Database W → StopResult W → Type 0
  MoneyKept db result =
      (result.0.wallets ≡ db.wallets)
      × (result.0.wallet_transactions ≡ db.wallet_transactions)
      × (result.0.charging_sessions ≡ db.charging_sessions)

  settle_approves :
      (rt : Runtime) (db before : Database W) (msg : StopMessage W) (dt : DeviceTransaction W)
      (session : ChargingSession W) (charger : Option Charger) (how : Settlement W)
      → KeepsMoney before (settle rt db msg dt session charger how)
  unfolding settle
  settle_approves rt db before msg dt session charger how h =
      absurd (approval_approves msg.is_abnormal_admin_stop msg.uuid h)

  handle_keeps_money :
      (rt : Runtime) (db : Database W) (msg : StopMessage W)
      → is_approval (handle rt db msg).2 ≡ false
      → ((handle rt db msg).0.wallets ≡ db.wallets)
        × ((handle rt db msg).0.wallet_transactions ≡ db.wallet_transactions)
        × ((handle rt db msg).0.charging_sessions ≡ db.charging_sessions)
        × ((handle rt db msg).1 ≡ [])
  unfolding update_transaction
  handle_keeps_money rt db msg =
      handle_cases (KeepsMoney db) rt db msg (λ _. (refl, refl, refl, refl))
        λ dt session found running there.
          stop_session_cases (KeepsMoney db) rt db msg dt session (λ _ _. (refl, refl, refl, refl))
            λ _.
              settle_approves rt (stopped_of rt db msg dt) db msg dt session (charger_of db dt)
                (how_settled rt db dt session)

  -- The ways of a call that throws late, as far as money goes.
  thrown_keeps_money :
      (rt : Runtime) (db : Database W) (msg : StopMessage W) (found : Option (DeviceTransaction W))
      → MoneyKept db (throwing_transaction rt db msg found)
  unfolding update_transaction abandoned
  thrown_keeps_money rt db msg none = (refl, refl, refl)
  thrown_keeps_money rt db msg (some dt) = elim (Bool-cases (is_settled dt)) [
    | inl done ↦ rw done (refl, refl, refl)
    | inr running ↦ elim (Option-cases (session_of db dt)) [
      | inl gone ↦ rw (running, gone) (refl, refl, refl)
      | inr (session, there) ↦
          elim (Bool-cases (
            pays_from_wallet session.platform
            && not (is_some (how_settled rt db dt session).wallet))) [
              | inl missing ↦ rw (running, there, missing) (refl, refl, refl)
              | inr has ↦ rw (running, there, has) (refl, refl, refl)
            ]
    ]
  ]

  -- A stop that is not accepted, by a check or by an error thrown anywhere in it, takes no money: no
  -- wallet, no ledger entry and no session changes. Unless the error comes after the platform's way of
  -- payment, no other system is called either.
  pub refused_stop_keeps_money :
      (rt : Runtime) (db : Database W) (msg : StopMessage W) (fault : Option Fault)
      → is_approval (handle_thrown rt db msg fault).2 ≡ false
      → ((handle_thrown rt db msg fault).0.wallets ≡ db.wallets)
        × ((handle_thrown rt db msg fault).0.wallet_transactions ≡ db.wallet_transactions)
        × ((handle_thrown rt db msg fault).0.charging_sessions ≡ db.charging_sessions)
        × (is_late fault ≡ false → (handle_thrown rt db msg fault).1 ≡ [])
  unfolding handle_thrown
  refused_stop_keeps_money rt db msg none h =
      let (wallets, ledger, sessions, calls) = handle_keeps_money rt db msg h in
      (wallets, ledger, sessions, λ _. calls)
  refused_stop_keeps_money rt db msg (some before_payment) h = (refl, refl, refl, λ _. refl)
  refused_stop_keeps_money rt db msg (some after_payment) h =
      let (wallets, ledger, sessions) =
        thrown_keeps_money rt db msg (transaction_of db msg.transaction_id) in
      (wallets, ledger, sessions, λ early. absurd (cc))

  -- Where the wallet is missing, the stop is refused, and yet it stays on the transaction's row: it
  -- has its end and its meter, while its status is what it was, so that it still counts as running.
  -- The updates do not all commit or roll back together.
  pub missing_wallet_half_stopped :
      (rt : Runtime) (db : Database W) (msg : StopMessage W) (dt : DeviceTransaction W)
      (session : ChargingSession W)
      → transaction_of db msg.transaction_id ≡ some dt
      → is_settled dt ≡ false
      → session_of db dt ≡ some session
      → pays_from_wallet session.platform ≡ true
      → (how_settled rt db dt session).wallet ≡ none
      → let result = handle rt db msg in
        (result.2 ≡ invalid msg.uuid)
        × ((row : DeviceTransaction W) × (transaction_of result.0 msg.transaction_id ≡ some row)
            × (row.stop_date ≡ some rt.now)
            × (row.stop_meter_value ≡ some (last_meter_value msg dt))
            × (row.status ≡ dt.status))
  unfolding handle stop_session record_stop
  missing_wallet_half_stopped rt db msg dt session found running there pays gone =
      rw (found, running, there, pays, gone)
        (
          refl,
          (
            record_stop rt msg dt dt,
            transaction_of-update_self dt.id msg.transaction_id (record_stop rt msg dt) db dt
                (λ x. refl) found refl,
            refl,
            refl,
            refl,
          ),
        )
