-- ===== src/Payments/Webhook/Once.antt =====
-- modules/payments/src/services/payment-webhook.service.ts: the webhook of a payment that is already
-- settled.
use nest_js_project.Prelude.{
  ℕ, ◌≡◌, refl, ap, sym, ◌∙◌, true, false, ◌&&◌, ◌||◌, is_some, Bool-cases, Option, none, some, inl,
  inr, List, String, ◌===◌, ◌==◌, text_beq_self, beq_self, find_one, holds_text,
  find_one-update_where,
}
use nest_js_project.Schema.{
  is_success, PaymentTransaction, Wallet, WalletTransaction, WalletType, Database,
}
use nest_js_project.Number.{Number}
use nest_js_project.Payments.Refund.{update_payment}
use nest_js_project.Payments.Webhook.{
  WebhookPayment, WebhookResult, process_payment_webhook, transaction_for, is_processed,
  wallet_of_user, wallet_of_fleet, user_cashback, fleet_cashback, settle_payment,
  settle_user_payment, settle_fleet_payment, apply_common_payment_fields, on_order, with_answer,
}
use nest_js_project.Payments.Webhook.Wallets.{
  WebhookRuntime, open_wallet, credit_wallet, credited_balance, cashback_number, ledger_entries,
  generate_unique_wallet_ref_no, save_balance, with_entries,
}

module _ {W : Type 0} where
  abbrev pub order_row : Database W → String → Option (PaymentTransaction W)
  order_row db order_id =
      find_one (λ p. holds_text p.order_id (some order_id)) db.payment_transactions

  -- An update of the payment that an order leads to is what the order leads to afterwards.
  pub order_row-update :
      (order_id : String) (set : PaymentTransaction W → PaymentTransaction W) (db : Database W)
      (row : PaymentTransaction W)
      → ((x : PaymentTransaction W) → (set x).order_id ≡ x.order_id)
      → order_row db order_id ≡ some row
      → order_row (update_payment row.id set db) order_id ≡ some (set row)
  unfolding update_payment
  order_row-update order_id set db row keep found =
      let test = λ (p : PaymentTransaction W). holds_text p.order_id (some order_id) in
      find_one-update_where test (λ p. p.id == row.id) set
        (λ p. ap (λ o. holds_text o (some order_id)) (keep p)) db.payment_transactions
      ∙ rw (found, beq_self row.id) refl

module _ {W : Type 0} where
  -- The payments of a result, and the given ones where there is none.
  abbrev payments_or :
      List (PaymentTransaction W) → Option (Database W) → List (PaymentTransaction W)
  payments_or rows none = rows
  payments_or rows (some db) = db.payment_transactions

  abbrev payments_of_answer :
      List (PaymentTransaction W)
      → Option (Database W × WebhookResult)
      → List (PaymentTransaction W)
  payments_of_answer rows none = rows
  payments_of_answer rows (some (db, _)) = db.payment_transactions

  payments_with_answer :
      (rows : List (PaymentTransaction W)) (o : Option (Database W))
      → payments_of_answer rows (with_answer o) ≡ payments_or rows o
  payments_with_answer rows none = refl
  payments_with_answer rows (some db) = refl

  payments_with_entries :
      (ref_no : Option String) (entries : String → List (WalletTransaction W)) (db : Database W)
      → payments_or db.payment_transactions (with_entries ref_no entries db)
        ≡ db.payment_transactions
  payments_with_entries none entries db = refl
  payments_with_entries (some r) entries db = refl

  -- The row that an order leads to is a payment that has succeeded with this number.
  abbrev pub ProcessedAt : Database W → String → WebhookPayment → Type 0
  ProcessedAt db order_id payment =
      (row : PaymentTransaction W) × (order_row db order_id ≡ some row)
      × (is_processed payment row ≡ true)

module _ {W : Type 0} ⦃num : Number W⦄ where
  payments_credit_wallet :
      (rt : WebhookRuntime W) (db : Database W) (wallet : Wallet W)
      (transaction : PaymentTransaction W) (actor_id : ℕ) (user_type : WalletType)
      (cashback : Option W)
      → payments_or db.payment_transactions
          (credit_wallet rt db wallet transaction actor_id user_type cashback)
        ≡ db.payment_transactions
  unfolding credit_wallet save_balance
  payments_credit_wallet rt db wallet transaction actor_id user_type cashback =
      let balance = credited_balance wallet transaction.amount cashback in
      let saved = save_balance wallet.id balance db in
      payments_with_entries (generate_unique_wallet_ref_no rt saved transaction.client_id actor_id)
        (λ ref_no.
          ledger_entries wallet transaction user_type ref_no balance (cashback_number cashback))
        saved

  payments_settled :
      (rt : WebhookRuntime W) (db : Database W) (type : WalletType) (user_id fleet_id : Option ℕ)
      (found : Option (Wallet W)) (transaction : PaymentTransaction W) (actor_id : ℕ)
      (cashback : Option W)
      → let (wallet, opened) =
          open_wallet rt type user_id fleet_id transaction.client_id found db in
        payments_or db.payment_transactions
          (credit_wallet rt opened wallet transaction actor_id type cashback)
        ≡ db.payment_transactions
  payments_settled rt db type user_id fleet_id none transaction actor_id cashback =
      let (wallet, opened) = open_wallet rt type user_id fleet_id transaction.client_id none db in
      payments_credit_wallet rt opened wallet transaction actor_id type cashback
  payments_settled rt db type user_id fleet_id (some wallet) transaction actor_id cashback =
      payments_credit_wallet rt db wallet transaction actor_id type cashback

  payments_settle_payment :
      (rt : WebhookRuntime W) (db : Database W) (transaction : PaymentTransaction W)
      (payment : WebhookPayment) (hook : String) (user_id fleet_id : Option ℕ)
      → (is_some user_id || is_some fleet_id) ≡ true
      → let paid =
          (update_payment transaction.id
            (apply_common_payment_fields payment hook)
            db).payment_transactions in
        payments_or paid (settle_payment rt db transaction payment hook user_id fleet_id) ≡ paid
  unfolding settle_payment settle_user_payment settle_fleet_payment
  payments_settle_payment rt db transaction payment hook (some user_id) fleet_id h =
      let paid = update_payment transaction.id (apply_common_payment_fields payment hook) db in
      payments_settled rt paid WalletType.user (some user_id) none (wallet_of_user paid user_id)
        transaction user_id (user_cashback rt paid transaction user_id transaction.coupon_id)
  payments_settle_payment rt db transaction payment hook none (some fleet_id) h =
      let paid = update_payment transaction.id (apply_common_payment_fields payment hook) db in
      payments_settled rt paid WalletType.fleet none (some fleet_id) (wallet_of_fleet paid fleet_id)
        transaction fleet_id (fleet_cashback rt paid transaction transaction.coupon_id)
  payments_settle_payment rt db transaction payment hook none none h = cc

  pub process-found :
      (rt : WebhookRuntime W) (db : Database W) (payment : WebhookPayment) (hook order_id : String)
      (transaction : PaymentTransaction W)
      → payment.order_id ≡ some order_id
      → order_row db order_id ≡ some transaction
      → process_payment_webhook rt db payment hook ≡ on_order rt db payment hook (some transaction)
  unfolding process_payment_webhook
  process-found rt db payment hook order_id transaction e found =
      ap (on_order rt db payment hook) (ap (transaction_for rt db) e ∙ found)

  captured-ProcessedAt :
      (rt : WebhookRuntime W) (db : Database W) (payment : WebhookPayment) (hook order_id : String)
      (transaction : PaymentTransaction W) (after : Database W) (answer : WebhookResult)
      → order_row db order_id ≡ some transaction
      → (is_some transaction.user_id || is_some transaction.fleet_id) ≡ true
      → (payment.status === "captured") ≡ true
      → is_processed payment transaction ≡ false
      → on_order rt db payment hook (some transaction) ≡ some (after, answer)
      → ProcessedAt after order_id payment
  unfolding apply_common_payment_fields update_payment
  captured-ProcessedAt rt db payment hook order_id transaction after answer found payer captured
        fresh h =
      let set = apply_common_payment_fields payment hook in
      let paid = update_payment transaction.id set db in
      let o =
        settle_payment rt db transaction payment hook transaction.user_id transaction.fleet_id in
      let settled : on_order rt db payment hook (some transaction) ≡ with_answer o =
        rw (fresh, captured) refl in
      let same : after.payment_transactions ≡ paid.payment_transactions =
        ap (payments_of_answer paid.payment_transactions) (sym h ∙ settled)
        ∙ payments_with_answer paid.payment_transactions o
        ∙ payments_settle_payment rt db transaction payment hook transaction.user_id
            transaction.fleet_id payer in
      (
        set transaction,
        ap (find_one (λ p. holds_text p.order_id (some order_id))) same
            ∙ order_row-update order_id set db transaction (λ x. refl) found,
        text_beq_self payment.id,
      )

  processed_answer :
      (rt : WebhookRuntime W) (db : Database W) (payment : WebhookPayment) (hook : String)
      (transaction : PaymentTransaction W)
      → is_processed payment transaction ≡ true
      → on_order rt db payment hook (some transaction) ≡ some (db, WebhookResult.already_processed)
  processed_answer rt db payment hook transaction done = rw done refl

  delivered-ProcessedAt :
      (rt : WebhookRuntime W) (db : Database W) (payment : WebhookPayment) (hook order_id : String)
      (transaction : PaymentTransaction W) (after : Database W) (answer : WebhookResult)
      → order_row db order_id ≡ some transaction
      → (is_some transaction.user_id || is_some transaction.fleet_id) ≡ true
      → (payment.status === "captured") ≡ true
      → on_order rt db payment hook (some transaction) ≡ some (after, answer)
      → ProcessedAt after order_id payment
  delivered-ProcessedAt rt db payment hook order_id transaction after answer found payer captured
        h =
      elim (Bool-cases (is_processed payment transaction)) [
        | inl done ↦ (
          transaction,
          ap (find_one (λ p. holds_text p.order_id (some order_id))) (
                ap (payments_of_answer db.payment_transactions)
                  (sym h ∙ processed_answer rt db payment hook transaction done))
              ∙ found,
          done,
        )
        | inr fresh ↦
            captured-ProcessedAt rt db payment hook order_id transaction after answer found payer
              captured fresh h
      ]

  -- On the database that a captured payment's webhook left, for an order with a user or a fleet, a
  -- further webhook of the same payment, whatever its status, changes nothing. Of other webhooks of the
  -- order in between it says nothing.
  pub captured_once :
      (rt later : WebhookRuntime W) (db : Database W) (payment again : WebhookPayment)
      (hook hook_again order_id : String) (transaction : PaymentTransaction W) (after : Database W)
      (answer : WebhookResult)
      → payment.order_id ≡ some order_id
      → order_row db order_id ≡ some transaction
      → (is_some transaction.user_id || is_some transaction.fleet_id) ≡ true
      → (payment.status === "captured") ≡ true
      → process_payment_webhook rt db payment hook ≡ some (after, answer)
      → again.order_id ≡ some order_id
      → again.id ≡ payment.id
      → process_payment_webhook later after again hook_again
        ≡ some (after, WebhookResult.already_processed)
  captured_once rt later db payment again hook hook_again order_id transaction after answer of_order
        found payer captured h again_order same_id =
      let (row, there, done) =
        delivered-ProcessedAt rt db payment hook order_id transaction after answer found payer
          captured
          (sym (process-found rt db payment hook order_id transaction of_order found) ∙ h) in
      let done_again =
        ap (λ i. is_success row.status && holds_text row.payment_id (some i)) same_id ∙ done in
      process-found later after again hook_again order_id row again_order there
      ∙ processed_answer later after again hook_again row done_again
