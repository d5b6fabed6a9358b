-- ===== src/Scheduler/Sweep/Exhausted.antt =====
-- What becomes of a session that was started five times: `sweepOnce` of
-- apps/scheduler/src/queue/qr-sweep.service.ts, and then `refund` of
-- modules/payments/src/services/qr-refund-listener.service.ts.
use nest_js_project.Prelude.{◌≡◌, refl, true, some, leb, is_some}
use nest_js_project.Schema.{SessionStatus, ChargingSession, Database}
use nest_js_project.Number.{Number}
use nest_js_project.Ocpp.Runtime.{Runtime}
use nest_js_project.Store.{session_by_id}
use nest_js_project.Payments.Refund.{RefundProvider, listen}
use nest_js_project.Payments.Refund.AfterStop.{Refundable, StatusAt, refund-StatusAt}
use nest_js_project.Scheduler.Sweep.{max_attempts, attempts_of, sweep_refund, sweep_session}

module _ {W : Type 0} ⦃num : Number W⦄ where
  -- A paid session that was started five times or more is not started again: the sweep leaves the
  -- database alone and asks for a refund, and once the provider has taken that, the session has
  -- failed.
  pub exhausted_session_fails :
      (api : RefundProvider W) (rt : Runtime) (db : Database W) (s : ChargingSession W)
      → leb max_attempts (attempts_of s) ≡ true
      → is_some s.payment_transaction_id ≡ true
      → session_by_id db s.id ≡ some s
      → Refundable api (sweep_refund s "Max attempts exhausted") db
      → let (after, calls) = sweep_session rt db s in
        (after ≡ db) × StatusAt (listen api calls after) s.id (some SessionStatus.failed)
  unfolding sweep_session sweep_refund listen
  exhausted_session_fails api rt db s spent paid found refundable =
      rw (spent, paid)
        (refl, refund-StatusAt api (sweep_refund s "Max attempts exhausted") db s refundable found)
