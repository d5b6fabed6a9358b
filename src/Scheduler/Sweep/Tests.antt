-- ===== src/Scheduler/Sweep/Tests.antt =====
-- The sweep at a booked QR session that was started five times, and the theorems about it.
use nest_js_project.Prelude.{◌≡◌, refl, some, [], ◌∷◌, arith}
use nest_js_project.Prelude.Int.{ℤ}
use nest_js_project.Schema.{ChannelSource, SessionStatus, ChargingSession, Database}
use nest_js_project.Whole.{whole_number}
use nest_js_project.Samples.{clock, started_session, qr_payment, razorpay_config, site}
use nest_js_project.Payments.Refund.{listen}
use nest_js_project.Payments.Refund.AfterStop.{Refundable, StatusAt}
use nest_js_project.Payments.Refund.Tests.{provider}
use nest_js_project.Scheduler.Sweep.{sweep_refund, sweep_session, sweep_once}
use nest_js_project.Scheduler.Sweep.Attempts.{Bounded, sweep_once-Bounded}
use nest_js_project.Scheduler.Sweep.Exhausted.{exhausted_session_fails}

abbrev stuck : ChargingSession ℤ
stuck = record (started_session 31 30 ChannelSource.qrpay) {
  status = some SessionStatus.initiated;
  remote_start_attempts = some 5;
}

abbrev waiting : ChargingSession ℤ
waiting = record (started_session 32 30 ChannelSource.qrpay) {
  status = some SessionStatus.initiated;
  remote_start_attempts = some 4;
}

abbrev queue : Database ℤ
queue = record site { charging_sessions = stuck ∷ waiting ∷ [] }

queue-Bounded : Bounded queue
queue-Bounded = (omega arith, (omega arith, tt))

sweep_once-Bounded_example : Bounded (sweep_once clock queue).0
sweep_once-Bounded_example = sweep_once-Bounded clock queue queue-Bounded

refundable : Refundable provider (sweep_refund stuck "Max attempts exhausted") queue
unfolding sweep_refund
refundable = record {
  payment = qr_payment;
  config = razorpay_config;
  refund_id = "rfnd_1";
  payment_known = refl;
  config_known = refl;
  is_razorpay = refl;
  responds = refl;
}

exhausted_session_fails_example :
    let (after, calls) = sweep_session clock queue stuck in
    (after ≡ queue) × StatusAt (listen provider calls after) 31 (some SessionStatus.failed)
exhausted_session_fails_example =
    exhausted_session_fails provider clock queue stuck refl refl refl refundable
