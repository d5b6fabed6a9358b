-- ===== src/Payments/Webhook/Credits.antt =====
-- modules/payments/src/services/payment-webhook.service.ts: what a settlement adds to the wallet and
-- to the ledger, and the bounds of a coupon's cashback.
use nest_js_project.Prelude.{
  ℕ, ◌≡◌, refl, ap, ◌∙◌, ◌<◌, true, false, ◌&&◌, Option, none, some, map, ◌++◌, String, ◌===◌, ◌==◌,
  holds, length, beq_self, find_one-update_where,
}
use nest_js_project.Schema.{PaymentTransaction, Wallet, WalletType, is_user_wallet, Database}
use nest_js_project.Number.{Number, as_number, number_or_zero}
use nest_js_project.Payments.Refund.{update_payment}
use nest_js_project.Payments.Webhook.{
  WebhookPayment, WebhookResult, process_payment_webhook, is_processed, wallet_of_user,
  user_cashback, settle_payment, settle_user_payment, apply_common_payment_fields, on_order,
  with_answer,
}
use nest_js_project.Payments.Webhook.Wallets.{
  WebhookRuntime, has_ref_no, save_balance, credit_wallet, credited_balance, cashback_number,
  ledger_entries, wallet_ref_no, generate_unique_wallet_ref_no,
}
use nest_js_project.Payments.Webhook.RefNo.{Distinct, ref_no_loop_ends}
use nest_js_project.Payments.Webhook.Once.{order_row, process-found}

module _ {W : Type 0} where
  wallet_of_user-save_balance :
      (db : Database W) (user_id : ℕ) (wallet : Wallet W) (balance : W)
      → wallet_of_user db user_id ≡ some wallet
      → wallet_of_user (save_balance wallet.id balance db) user_id
        ≡ some (record wallet { balance = some balance })
  unfolding save_balance
  wallet_of_user-save_balance db user_id wallet balance found =
      find_one-update_where (λ w. holds w.user_id (some user_id) && is_user_wallet w.type)
        (λ w. w.id == wallet.id) (λ w. record w { balance = some balance }) (λ w. refl) db.wallets
      ∙ rw (found, beq_self wallet.id) refl

module _ {W : Type 0} ⦃num : Number W⦄ where
  -- The cashback that a user's payment earns, as it is looked up once the payment counts as paid.
  abbrev pub cashback_earned :
      WebhookRuntime W → Database W → PaymentTransaction W → WebhookPayment → String → ℕ → Option W
  cashback_earned rt db transaction payment hook user_id =
      user_cashback rt (update_payment transaction.id (apply_common_payment_fields payment hook) db)
        transaction user_id transaction.coupon_id

  abbrev plus_cashback : W → Option W → W
  plus_cashback sum none = sum
  plus_cashback sum (some cashback) = num.add sum cashback

  abbrev pub balance_after :
      WebhookRuntime W
      → Database W
      → PaymentTransaction W
      → WebhookPayment
      → String
      → ℕ
      → Wallet W
      → W
  balance_after rt db transaction payment hook user_id wallet =
      plus_cashback (num.add (number_or_zero wallet.balance) (as_number transaction.amount))
        (cashback_earned rt db transaction payment hook user_id)

  -- The wallet holds its old balance, the payment and the cashback, and the ledger has gained the
  -- entries for these under a number that was not in it.
  abbrev pub Credits :
      WebhookRuntime W
      → Database W
      → PaymentTransaction W
      → WebhookPayment
      → String
      → ℕ
      → Wallet W
      → Database W
      → Type 0
  Credits rt db transaction payment hook user_id wallet after =
      let balance = balance_after rt db transaction payment hook user_id wallet in
      let cashback = cashback_number (cashback_earned rt db transaction payment hook user_id) in
      (wallet_of_user after user_id ≡ some (record wallet { balance = some balance }))
      × (ref_no : String) × (has_ref_no db ref_no ≡ false)
      × (after.wallet_transactions
          ≡ db.wallet_transactions
            ++ ledger_entries wallet transaction WalletType.user ref_no balance cashback)

  credit_wallet-with :
      (rt : WebhookRuntime W) (db : Database W) (wallet : Wallet W)
      (transaction : PaymentTransaction W) (actor_id : ℕ) (user_type : WalletType)
      (cashback : Option W) (ref_no : String)
      → let balance = credited_balance wallet transaction.amount cashback in
        let saved = save_balance wallet.id balance db in
        generate_unique_wallet_ref_no rt saved transaction.client_id actor_id ≡ some ref_no
        → credit_wallet rt db wallet transaction actor_id user_type cashback
          ≡ some (record saved {
            wallet_transactions =
                saved.wallet_transactions
                ++ ledger_entries wallet transaction user_type ref_no balance
                    (cashback_number cashback);
          })
  unfolding credit_wallet
  credit_wallet-with rt db wallet transaction actor_id user_type cashback ref_no e = rw e refl

  settle_user-Credits :
      (rt : WebhookRuntime W) (db : Database W) (transaction : PaymentTransaction W)
      (payment : WebhookPayment) (hook : String) (user_id : ℕ) (wallet : Wallet W)
      → wallet_of_user db user_id ≡ some wallet
      → Distinct (map (wallet_ref_no rt db transaction.client_id user_id) rt.draws)
      → length db.wallet_transactions < length rt.draws
      → (after : Database W) × (settle_user_payment rt db transaction payment hook user_id
          ≡ some after)
        × Credits rt db transaction payment hook user_id wallet after
  unfolding settle_user_payment update_payment save_balance
  settle_user-Credits rt db transaction payment hook user_id wallet found distinct enough =
      let paid = update_payment transaction.id (apply_common_payment_fields payment hook) db in
      let cashback = cashback_earned rt db transaction payment hook user_id in
      let balance = balance_after rt db transaction payment hook user_id wallet in
      let saved = save_balance wallet.id balance paid in
      let (ref_no, e, fresh) =
        ref_no_loop_ends rt saved transaction.client_id user_id distinct enough in
      (
        record saved {
          wallet_transactions =
              saved.wallet_transactions
              ++ ledger_entries wallet transaction WalletType.user ref_no balance
                  (cashback_number cashback);
        },
        rw found (
            credit_wallet-with rt paid wallet transaction user_id WalletType.user cashback ref_no
              e),
        (wallet_of_user-save_balance paid user_id wallet balance found, ref_no, fresh, refl),
      )

  -- The webhook of a captured payment for a user's order that is not processed yet credits the wallet
  -- with the payment and the coupon's cashback, and enters both in the ledger under a new reference
  -- number. It ends where the numbers that are drawn for it differ and are more than the ledger's rows.
  pub captured-Credits :
      (rt : WebhookRuntime W) (db : Database W) (payment : WebhookPayment) (hook order_id : String)
      (transaction : PaymentTransaction W) (user_id : ℕ) (wallet : Wallet W)
      → payment.order_id ≡ some order_id
      → order_row db order_id ≡ some transaction
      → is_processed payment transaction ≡ false
      → (payment.status === "captured") ≡ true
      → transaction.user_id ≡ some user_id
      → wallet_of_user db user_id ≡ some wallet
      → Distinct (map (wallet_ref_no rt db transaction.client_id user_id) rt.draws)
      → length db.wallet_transactions < length rt.draws
      → (after : Database W) × (process_payment_webhook rt db payment hook
          ≡ some (after, WebhookResult.received))
        × Credits rt db transaction payment hook user_id wallet after
  unfolding settle_payment
  captured-Credits rt db payment hook order_id transaction user_id wallet of_order found fresh
        captured of_user has_wallet distinct enough =
      let (after, settled, credits) =
        settle_user-Credits rt db transaction payment hook user_id wallet has_wallet distinct
          enough in
      let o =
        settle_payment rt db transaction payment hook transaction.user_id transaction.fleet_id in
      let open_answer : on_order rt db payment hook (some transaction) ≡ with_answer o =
        rw (fresh, captured) refl in
      (
        after,
        process-found rt db payment hook order_id transaction of_order found
            ∙ open_answer
            ∙ ap
                (λ u.
                  with_answer
                    (settle_payment rt db transaction payment hook u transaction.fleet_id))
                of_user
            ∙ ap with_answer settled,
        credits,
      )
