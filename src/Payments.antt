-- ===== src/Payments.antt =====
-- modules/payments: webhooks of the payment provider, settlements and refunds.
pub mod Refund
pub mod Webhook
pub mod QrWebhook
