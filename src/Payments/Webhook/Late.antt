-- ===== src/Payments/Webhook/Late.antt =====
-- modules/payments/src/services/payment-webhook.service.ts: the webhook of a failed attempt that
-- comes after the order was paid.
use nest_js_project.Prelude.{◌≡◌, refl, ◌∙◌, true, false, some, String, ◌===◌}
use nest_js_project.Schema.{PaymentTransaction, PaymentStatus, Database}
use nest_js_project.Number.{Number}
use nest_js_project.Payments.Refund.{update_payment}
use nest_js_project.Payments.Webhook.{
  WebhookPayment, WebhookResult, process_payment_webhook, is_processed, apply_failure,
}
use nest_js_project.Payments.Webhook.Wallets.{WebhookRuntime}
use nest_js_project.Payments.Webhook.Once.{order_row, order_row-update, process-found}

module _ {W : Type 0} where
  -- The order's payment is marked as failed, so that no attempt counts as processed.
  pub record MarkedFailed (db : Database W) (order_id : String) : Type 0 where
    pub row : PaymentTransaction W
    pub found : order_row db order_id ≡ some row
    pub is_failed : row.status ≡ PaymentStatus.failed
    pub unprocessed : (payment : WebhookPayment) → is_processed payment row ≡ false

module _ {W : Type 0} ⦃num : Number W⦄ where
  -- The webhook of a failed attempt, which carries another payment number than the one that is
  -- recorded, marks the order's payment as failed even if it had succeeded and the wallet was
  -- credited. Wallets and ledger stay as they were, and every payment number counts as not processed
  -- from then on.
  pub late_failure_reopens_payment :
      (rt : WebhookRuntime W) (db : Database W) (payment : WebhookPayment) (hook order_id : String)
      (transaction : PaymentTransaction W)
      → payment.order_id ≡ some order_id
      → order_row db order_id ≡ some transaction
      → is_processed payment transaction ≡ false
      → (payment.status === "captured") ≡ false
      → (payment.status === "failed") ≡ true
      → (after : Database W) × (process_payment_webhook rt db payment hook
          ≡ some (after, WebhookResult.received))
        × MarkedFailed after order_id
        × (after.wallets ≡ db.wallets)
        × (after.wallet_transactions ≡ db.wallet_transactions)
  unfolding apply_failure update_payment
  late_failure_reopens_payment rt db payment hook order_id transaction of_order found fresh
        uncaptured failed =
      let set = apply_failure payment hook in
      (
        update_payment transaction.id set db,
        process-found rt db payment hook order_id transaction of_order found
            ∙ rw (fresh, uncaptured, failed) refl,
        record {
          row = set transaction;
          found = order_row-update order_id set db transaction (λ x. refl) found;
          is_failed = refl;
          unprocessed = λ other. refl;
        },
        refl,
        refl,
      )
