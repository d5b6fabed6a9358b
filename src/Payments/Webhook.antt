-- ===== src/Payments/Webhook.antt =====
-- modules/payments/src/services/payment-webhook.service.ts: what the provider's webhook does to the
-- recharge of a wallet. The payment is the event's `payload.payment.entity`; the database
-- transaction around the work and its rollback are not represented.
pub mod Wallets
pub mod RefNo
pub mod Once
pub mod Late
pub mod Credits
mod Tests
use nest_js_project.Prelude.{
  ℕ, Bool, true, false, ◌&&◌, not, Option, none, some, List, String, if◌then◌else◌, ◌===◌, ◌==◌,
  find_one, holds, holds_text, or_else, is_some, filled, arith,
}
use nest_js_project.Schema.{
  WalletType, PaymentStatus, is_success, is_user_wallet, is_fleet_wallet, Wallet,
  PaymentTransaction, Database,
}
use nest_js_project.Number.{Number, as_number, number_or_zero}
use nest_js_project.Payments.Refund.{update_payment}
use nest_js_project.Payments.Webhook.Wallets.{
  WebhookRuntime, open_wallet, credit_wallet, coupon_cashback,
}

pub record WebhookPayment : Type 0 where
  pub order_id : Option String
  pub id : String
  pub status : String
  pub method : Option String
  pub description : Option String
  pub bank_transaction_id : Option String
  pub rrn : Option String
  pub email : Option String
  pub contact : Option String
  pub vpa : Option String

pub data WebhookResult : Type 0 where
  transaction_not_found already_processed received : WebhookResult

-- `x || null`.
abbrev pub or_null : Option String → Option String
or_null s = if filled s then s else none

-- `a || b || null`.
abbrev pub first_filled : Option String → Option String → Option String
first_filled a b = if filled a then a else or_null b

module _ {W : Type 0} where
  unfoldable pub apply_common_payment_fields :
      WebhookPayment → String → PaymentTransaction W → PaymentTransaction W
  apply_common_payment_fields payment hook row = record row {
    status = PaymentStatus.success;
    payment_id = some payment.id;
    payment_type = payment.method;
    description = payment.description;
    hook = some hook;
    paid_user_email = or_null payment.email;
    paid_user = first_filled payment.contact payment.vpa;
    utr = first_filled payment.bank_transaction_id payment.rrn;
  }

  unfoldable pub apply_failure :
      WebhookPayment → String → PaymentTransaction W → PaymentTransaction W
  apply_failure payment hook row = record row {
    status = PaymentStatus.failed;
    payment_type = payment.method;
    description = payment.description;
    hook = some hook;
    utr = first_filled payment.bank_transaction_id payment.rrn;
    payment_id = some payment.id;
    paid_user_email = or_null payment.email;
    paid_user = first_filled payment.contact payment.vpa;
  }

  -- Another successful payment of the user with the same coupon.
  abbrev pub already_used :
      Database W → PaymentTransaction W → ℕ → ℕ → Option (PaymentTransaction W)
  already_used db transaction user_id coupon_id =
      find_one
        (λ p.
          not (p.id == transaction.id)
          && holds p.user_id (some user_id)
          && holds p.coupon_id (some coupon_id)
          && is_success p.status)
        db.payment_transactions

  abbrev pub wallet_of_user : Database W → ℕ → Option (Wallet W)
  wallet_of_user db user_id =
      find_one (λ w. holds w.user_id (some user_id) && is_user_wallet w.type) db.wallets

  abbrev pub wallet_of_fleet : Database W → ℕ → Option (Wallet W)
  wallet_of_fleet db fleet_id =
      find_one (λ w. holds w.fleet_id (some fleet_id) && is_fleet_wallet w.type) db.wallets

  -- `findOne({ where: { orderId } })`; what the library makes of a missing order is a parameter.
  abbrev pub transaction_for :
      WebhookRuntime W → Database W → Option String → Option (PaymentTransaction W)
  transaction_for rt db none = rt.without_order db.payment_transactions
  transaction_for rt db (some order_id) =
      find_one (λ p. holds_text p.order_id (some order_id)) db.payment_transactions

  abbrev pub is_processed : WebhookPayment → PaymentTransaction W → Bool
  is_processed payment transaction =
      is_success transaction.status && holds_text transaction.payment_id (some payment.id)

  abbrev pub with_answer : Option (Database W) → Option (Database W × WebhookResult)
  with_answer none = none
  with_answer (some db) = some (db, WebhookResult.received)

module _ {W : Type 0} ⦃num : Number W⦄ where
  abbrev pub user_cashback :
      WebhookRuntime W → Database W → PaymentTransaction W → ℕ → Option ℕ → Option W
  user_cashback rt db transaction user_id none = none
  user_cashback rt db transaction user_id (some coupon_id) =
      if is_some (already_used db transaction user_id coupon_id)
      then none
      else coupon_cashback rt db coupon_id (as_number transaction.amount)

  abbrev pub fleet_cashback :
      WebhookRuntime W → Database W → PaymentTransaction W → Option ℕ → Option W
  fleet_cashback rt db transaction none = none
  fleet_cashback rt db transaction (some coupon_id) =
      coupon_cashback rt db coupon_id (as_number transaction.amount)

  -- `none` while `generateUniqueWalletRefNo` still draws.
  unfoldable pub settle_user_payment :
      WebhookRuntime W
      → Database W
      → PaymentTransaction W
      → WebhookPayment
      → String
      → ℕ
      → Option (Database W)
  settle_user_payment rt db transaction payment hook user_id =
      let paid = update_payment transaction.id (apply_common_payment_fields payment hook) db in
      let cashback = user_cashback rt paid transaction user_id transaction.coupon_id in
      let (wallet, opened) =
        open_wallet rt WalletType.user (some user_id) none transaction.client_id
          (wallet_of_user paid user_id) paid in
      credit_wallet rt opened wallet transaction user_id WalletType.user cashback

  unfoldable pub settle_fleet_payment :
      WebhookRuntime W
      → Database W
      → PaymentTransaction W
      → WebhookPayment
      → String
      → ℕ
      → Option (Database W)
  settle_fleet_payment rt db transaction payment hook fleet_id =
      let paid = update_payment transaction.id (apply_common_payment_fields payment hook) db in
      let cashback = fleet_cashback rt paid transaction transaction.coupon_id in
      let (wallet, opened) =
        open_wallet rt WalletType.fleet none (some fleet_id) transaction.client_id
          (wallet_of_fleet paid fleet_id) paid in
      credit_wallet rt opened wallet transaction fleet_id WalletType.fleet cashback

  -- `if (transaction.userId) … else if (transaction.fleetId) …`.
  unfoldable pub settle_payment :
      WebhookRuntime W
      → Database W
      → PaymentTransaction W
      → WebhookPayment
      → String
      → Option ℕ
      → Option ℕ
      → Option (Database W)
  settle_payment rt db transaction payment hook (some user_id) fleet_id =
      settle_user_payment rt db transaction payment hook user_id
  settle_payment rt db transaction payment hook none (some fleet_id) =
      settle_fleet_payment rt db transaction payment hook fleet_id
  settle_payment rt db transaction payment hook none none = some db

  abbrev pub on_payment_status :
      WebhookRuntime W
      → Database W
      → PaymentTransaction W
      → WebhookPayment
      → String
      → Option (Database W)
  on_payment_status rt db transaction payment hook =
      if payment.status === "captured"
      then settle_payment rt db transaction payment hook transaction.user_id transaction.fleet_id
      else (if payment.status === "failed"
          then some (update_payment transaction.id (apply_failure payment hook) db)
          else some db)

  abbrev pub on_order :
      WebhookRuntime W
      → Database W
      → WebhookPayment
      → String
      → Option (PaymentTransaction W)
      → Option (Database W × WebhookResult)
  on_order rt db payment hook none = some (db, WebhookResult.transaction_not_found)
  on_order rt db payment hook (some transaction) =
      if is_processed payment transaction
      then some (db, WebhookResult.already_processed)
      else with_answer (on_payment_status rt db transaction payment hook)

  unfoldable pub process_payment_webhook :
      WebhookRuntime W → Database W → WebhookPayment → String → Option (Database W × WebhookResult)
  process_payment_webhook rt db payment hook =
      on_order rt db payment hook (transaction_for rt db payment.order_id)
