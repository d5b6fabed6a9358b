-- ===== src/Payments/Refund.antt =====
-- modules/payments/src/services/qr-refund-listener.service.ts: the one place that refunds a QR
-- payment. The provider's HTTP interface is a parameter.
pub mod AfterStop
pub mod Tests
use nest_js_project.Prelude.{
  ℕ, Option, none, some, List, [], ◌∷◌, String, if◌then◌else◌, ◌===◌, ◌==◌, find_one, update_where,
  holds, get_or_else,
}
use nest_js_project.Schema.{PaymentTransaction, PaymentConfig, ChargingSession, Database}
use nest_js_project.Store.{update_session}
use nest_js_project.Ocpp.Effect.{Effect, QrRefundRequestPayload, publish_refund}

pub record RefundProvider (W : Type 0) : Type 0 where
  pub lower : String → String  -- `toLowerCase()`
  -- The refund's number, or nothing where the call fails.
  pub refund_payment : Option String → W → Option String

module _ {W : Type 0} where
  unfoldable pub update_payment :
      ℕ → (PaymentTransaction W → PaymentTransaction W) → Database W → Database W
  update_payment id set db = record db {
    payment_transactions = update_where (λ p. p.id == id) set db.payment_transactions;
  }

  unfoldable pub mark_refunded :
      String → QrRefundRequestPayload W → PaymentTransaction W → PaymentTransaction W
  mark_refunded refund_id payload row = record row {
    refund_id = some refund_id;
    refund_amount = some payload.refund_amount;
  }

  unfoldable pub close_refunded : QrRefundRequestPayload W → ChargingSession W → ChargingSession W
  close_refunded payload row = record row {
    failure_reason = some payload.reason;
    status = payload.new_status;
    next_action_at = none;
  }

  -- `applyRefund` of repositories/pay-charge-qr.repository.ts.
  unfoldable pub apply_refund :
      PaymentTransaction W → String → QrRefundRequestPayload W → Database W → Database W
  apply_refund payment refund_id payload db =
      update_session payload.session_row_id (close_refunded payload)
        (update_payment payment.id (mark_refunded refund_id payload) db)

  abbrev on_response :
      Option String → PaymentTransaction W → QrRefundRequestPayload W → Database W → Database W
  on_response none payment payload db = db
  on_response (some refund_id) payment payload db = apply_refund payment refund_id payload db

  abbrev on_config :
      RefundProvider W
      → Option PaymentConfig
      → PaymentTransaction W
      → QrRefundRequestPayload W
      → Database W
      → Database W
  on_config api none payment payload db = db
  on_config api (some config) payment payload db =
      if api.lower (get_or_else config.provider "") === "razorpay"
      then on_response (api.refund_payment payment.payment_id payload.refund_amount) payment payload
          db
      else db

  abbrev on_payment :
      RefundProvider W
      → Option (PaymentTransaction W)
      → QrRefundRequestPayload W
      → Database W
      → Database W
  on_payment api none payload db = db
  on_payment api (some payment) payload db =
      on_config api (find_one (λ c. c.client_id == payload.client_id) db.payment_configs) payment
        payload db

  -- `refund`: each check that fails leaves everything as it was.
  unfoldable pub refund : RefundProvider W → QrRefundRequestPayload W → Database W → Database W
  refund api payload db =
      on_payment api
        (find_one (λ p. holds (some p.id) payload.payment_transaction_id) db.payment_transactions)
        payload db

  abbrev receive : RefundProvider W → Effect W → Database W → Database W
  receive api (publish_refund payload) db = refund api payload db
  receive api _ db = db

  -- The listener's work on all that a handler published, in order.
  unfoldable pub listen : RefundProvider W → List (Effect W) → Database W → Database W
  listen api [] db = db
  listen api (e ∷ es) db = listen api es (receive api e db)
