-- ===== src/Payments/Refund/Tests.antt =====
-- The stop of the sample QR session, and the refund after it.
use nest_js_project.Prelude.{refl, some}
use nest_js_project.Prelude.Int.{ℤ}
use nest_js_project.Schema.{ChannelSource, SessionStatus, DeviceTransaction, ChargingSession}
use nest_js_project.Whole.{whole_number}
use nest_js_project.Samples.{
  clock, running_transaction, started_session, qr_payment, razorpay_config, site,
}
use nest_js_project.Ocpp.Tariff.{standard_tariff}
use nest_js_project.Ocpp.Stop.Reading.{total_wh, last_meter_value}
use nest_js_project.Ocpp.Stop.Price.{settlement, qr_price}
use nest_js_project.Ocpp.Stop.Payment.{bill_of, leftover_refund}
use nest_js_project.Ocpp.Stop.{handle}
use nest_js_project.Ocpp.Stop.Ledger.{bill_at}
use nest_js_project.Ocpp.Stop.Tests.{stop_frame}
use nest_js_project.Payments.Refund.{RefundProvider, listen}
use nest_js_project.Payments.Refund.AfterStop.{
  HasLeftover, Refundable, StatusAt, remaining_of, qr_refund_reopens_session,
}

abbrev pub provider : RefundProvider ℤ
provider = record { lower = λ s. s; refund_payment = λ _ _. some "rfnd_1" }

abbrev running : DeviceTransaction ℤ
running = running_transaction 12 5

abbrev session : ChargingSession ℤ
session = started_session 22 12 ChannelSource.qrpay

leftover :
    HasLeftover session (bill_at clock site (stop_frame 1_000_012) running session).total_amount
unfolding settlement qr_price standard_tariff bill_of total_wh last_meter_value
leftover = record { below_maximum = refl; one_rupee = refl }

refundable :
    Refundable provider
      (leftover_refund session running (
        remaining_of session
          (bill_at clock site (stop_frame 1_000_012) running session).total_amount))
      site
unfolding leftover_refund
refundable = record {
  payment = qr_payment;
  config = razorpay_config;
  refund_id = "rfnd_1";
  payment_known = refl;
  config_known = refl;
  is_razorpay = refl;
  responds = refl;
}

qr_refund_reopens_session_example :
    let (after, calls, _) = handle clock site (stop_frame 1_000_012) in
    StatusAt after 22 (some SessionStatus.completed)
    × StatusAt (listen provider calls after) 22 (some SessionStatus.started)
qr_refund_reopens_session_example =
    qr_refund_reopens_session provider clock site (stop_frame 1_000_012) running session refl refl
      refl refl refl leftover refundable
