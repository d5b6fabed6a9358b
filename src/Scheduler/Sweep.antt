-- ===== src/Scheduler/Sweep.antt =====
-- apps/scheduler/src/queue/qr-sweep.service.ts, with qr-sweep.repository.ts: every 20 seconds, the
-- booked QR sessions that have not started are started again, and refunded after five attempts.
pub mod Attempts
pub mod Exhausted
mod Tests
use nest_js_project.Prelude.{
  ℕ, ◌+◌, Bool, true, false, ◌&&◌, Option, none, some, List, [], ◌∷◌, ◌++◌, String, if◌then◌else◌,
  ◌==◌, leb, find_one, find_all, get_or_else, is_some,
}
use nest_js_project.Schema.{
  ChannelSource, SessionStatus, is_initiated, ChargingSession, Charger, Database,
}
use nest_js_project.Number.{Number, number_or_zero}
use nest_js_project.Ocpp.Runtime.{Runtime}
use nest_js_project.Ocpp.Effect.{
  Effect, QrRefundRequestPayload, of_session, publish_refund, remote_start,
}
use nest_js_project.Store.{update_session}

abbrev pub max_attempts : ℕ
max_attempts = 5

abbrev pub remote_start_timeout_ms : ℕ
remote_start_timeout_ms = 30_000

abbrev is_qrpay : Option ChannelSource → Bool
is_qrpay (some ChannelSource.qrpay) = true
is_qrpay _ = false

-- NULL comes first.
abbrev no_later : Option ℕ → Option ℕ → Bool
no_later none b = true
no_later (some a) none = false
no_later (some a) (some b) = leb a b

-- TypeORM leaves a condition out whose value is null.
abbrev has_key : Option ℕ → ℕ → Bool
has_key none id = true
has_key (some key) id = key == id

module _ {W : Type 0} where
  abbrev pub is_due : ChargingSession W → Bool
  is_due s = is_qrpay s.platform && is_initiated s.status && is_some s.payment_transaction_id

  unfoldable pub insert_by_next_action :
      ChargingSession W → List (ChargingSession W) → List (ChargingSession W)
  insert_by_next_action s [] = s ∷ []
  insert_by_next_action s (t ∷ ts) =
      let rest = insert_by_next_action s ts in
      if no_later s.next_action_at t.next_action_at then s ∷ t ∷ ts else t ∷ rest

  unfoldable pub by_next_action : List (ChargingSession W) → List (ChargingSession W)
  unfolding insert_by_next_action
  by_next_action [] = []
  by_next_action (s ∷ ss) = insert_by_next_action s (by_next_action ss)

  unfoldable pub find_due_qr_sweep_sessions : Database W → List (ChargingSession W)
  unfolding by_next_action
  find_due_qr_sweep_sessions db = by_next_action (find_all is_due db.charging_sessions)

  abbrev pub find_charger_by_id : Database W → Option ℕ → Option Charger
  find_charger_by_id db id = find_one (λ c. has_key id c.id) db.chargers

  unfoldable pub set_remote_start : ℕ → ℕ → ChargingSession W → ChargingSession W
  set_remote_start attempts next_action row = record row {
    remote_start_attempts = some attempts;
    next_action_at = some next_action;
  }

  abbrev pub attempts_of : ChargingSession W → ℕ
  attempts_of s = get_or_else s.remote_start_attempts 0

module _ {W : Type 0} ⦃num : Number W⦄ where
  unfoldable pub sweep_refund : ChargingSession W → String → QrRefundRequestPayload W
  sweep_refund session reason = record {
    session_row_id = session.id;
    payment_transaction_id = session.payment_transaction_id;
    client_id = session.client_id;
    session_code = session.session_id;
    reference_id = of_session session.session_id;
    refund_amount = number_or_zero session.max_amount;
    reason = reason;
    new_status = some SessionStatus.failed;
  }

  abbrev pub publish_sweep_refund : ChargingSession W → String → List (Effect W)
  publish_sweep_refund session reason =
      if is_some session.payment_transaction_id
      then publish_refund (sweep_refund session reason) ∷ []
      else []

  abbrev pub start_again :
      Runtime → Database W → ChargingSession W → Option Charger → Database W × List (Effect W)
  start_again rt db session none = (db, publish_sweep_refund session "Charger not found")
  start_again rt db session (some charger) = (
    update_session session.id
        (set_remote_start (attempts_of session + 1) (rt.now + remote_start_timeout_ms)) db,
    remote_start charger.charger_id session.connector_id session.session_id ∷ [],
  )

  unfoldable pub sweep_session :
      Runtime → Database W → ChargingSession W → Database W × List (Effect W)
  sweep_session rt db session =
      if leb max_attempts (attempts_of session)
      then (db, publish_sweep_refund session "Max attempts exhausted")
      else start_again rt db session (find_charger_by_id db session.charger_ref)

  unfoldable pub sweep_sessions :
      Runtime → Database W → List (ChargingSession W) → Database W × List (Effect W)
  sweep_sessions rt db [] = (db, [])
  sweep_sessions rt db (s ∷ ss) =
      let (swept, calls) = sweep_session rt db s in
      let (after, more) = sweep_sessions rt swept ss in (after, calls ++ more)

  unfoldable pub sweep_once : Runtime → Database W → Database W × List (Effect W)
  sweep_once rt db = sweep_sessions rt db (find_due_qr_sweep_sessions db)
