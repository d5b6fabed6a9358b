-- ===== src/Ocpp/Stop/Cases.antt =====
-- The ways that a call of `handle` in v16/handlers/stop-transaction.handler.ts can take.
use nest_js_project.Prelude.{
  ◌≡◌, inl, inr, true, false, ◌&&◌, not, Bool-cases, Option-cases, some, [], is_some,
}
use nest_js_project.Schema.{DeviceTransaction, ChargingSession, Database}
use nest_js_project.Number.{Number}
use nest_js_project.Ocpp.Runtime.{Runtime}
use nest_js_project.Ocpp.Stop.Reading.{StopMessage}
use nest_js_project.Store.{session_of, transaction_of}
use nest_js_project.Ocpp.Stop.{
  StopResult, invalid, refusal, pays_from_wallet, stopped_of, charger_of, how_settled, settle,
  stop_session, is_settled, handle,
}

module _ {W : Type 0} ⦃num : Number W⦄ where
  pub stop_session_cases {ℓ} :
      (P : StopResult W → Type ℓ) (rt : Runtime) (db : Database W) (msg : StopMessage W)
      (dt : DeviceTransaction W) (session : ChargingSession W)
      → (pays_from_wallet session.platform && not (is_some (how_settled rt db dt session).wallet)
            ≡ true
          → P (stopped_of rt db msg dt, [], invalid msg.uuid))
      → (pays_from_wallet session.platform && not (is_some (how_settled rt db dt session).wallet)
            ≡ false
          → P (
              settle rt
                (stopped_of rt db msg dt)
                msg
                dt
                session
                (charger_of db dt)
                (how_settled rt db dt session)))
      → P (stop_session rt db msg dt session)
  unfolding stop_session
  stop_session_cases P rt db msg dt session missing there =
      elim (Bool-cases (
        pays_from_wallet session.platform && not (is_some (how_settled rt db dt session).wallet))) [
          | inl e ↦ rw e (missing e)
          | inr e ↦ rw e (there e)
        ]

  -- The ways that a call can take, for proofs about `handle`.
  pub handle_cases {ℓ} :
      (P : StopResult W → Type ℓ) (rt : Runtime) (db : Database W) (msg : StopMessage W)
      → P (db, [], refusal msg.is_abnormal_admin_stop msg.uuid)
      → ((dt : DeviceTransaction W) (session : ChargingSession W)
          → transaction_of db msg.transaction_id ≡ some dt
          → is_settled dt ≡ false
          → session_of db dt ≡ some session
          → P (stop_session rt db msg dt session))
      → P (handle rt db msg)
  unfolding handle
  handle_cases P rt db msg refused stopped =
      elim (Option-cases (transaction_of db msg.transaction_id)) [
        | inl gone ↦ rw gone refused
        | inr (dt, found) ↦ elim (Bool-cases (is_settled dt)) [
          | inl done ↦ rw (found, done) refused
          | inr running ↦ elim (Option-cases (session_of db dt)) [
            | inl gone ↦ rw (found, running, gone) refused
            | inr (session, there) ↦
                rw (found, running, there) (stopped dt session found running there)
          ]
        ]
      ]
