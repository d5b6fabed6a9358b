-- ===== src/Payments/Webhook/Tests.antt =====
-- A recharge of the sample user's wallet, with a coupon.
use nest_js_project.Prelude.{
  if◌then◌else◌, ◌==◌, ℕ, ◌≡◌, refl, false, none, some, [], ◌∷◌, String, arith,
}
use nest_js_project.Prelude.Int.{ℤ, pos}
use nest_js_project.Schema.{
  PaymentStatus, PaymentActorType, PaymentPurpose, PaymentTransaction, Coupon, Database,
}
use nest_js_project.Whole.{whole_number}
use nest_js_project.Samples.{qr_payment, user_wallet as sample_wallet, site}
use nest_js_project.Payments.Webhook.{
  WebhookPayment, WebhookResult, process_payment_webhook, wallet_of_user, settle_payment,
  settle_user_payment, apply_common_payment_fields,
}
use nest_js_project.Payments.Webhook.Wallets.{
  WebhookRuntime, CouponTerms, calculate_cashback, generate_unique_wallet_ref_no, has_ref_no,
  credit_wallet, save_balance, first_fresh, find_active_coupon,
}
use nest_js_project.Payments.Refund.{update_payment}
use nest_js_project.Payments.Webhook.RefNo.{ref_no_loop_ends}
use nest_js_project.Payments.Webhook.Once.{captured_once}
use nest_js_project.Payments.Webhook.Late.{MarkedFailed, late_failure_reopens_payment}
use nest_js_project.Payments.Webhook.Credits.{Credits, captured-Credits}

abbrev recharge : PaymentTransaction ℤ
recharge = record qr_payment {
  id = 71;
  order_id = some "order_1";
  payment_id = none;
  user_id = some 5;
  coupon_id = some 6;
  amount = some (pos 200);
  status = PaymentStatus.pending;
  type = some PaymentActorType.user;
  payment_purpose = PaymentPurpose.wallet_recharge;
}

-- A tenth of a recharge of a hundred or more, fifteen at most.
abbrev tenth : Coupon ℤ
tenth = record {
  id = 6;
  start_date = some 1000;
  end_date = some 9000;
  amount = some (pos 100);
  cashback_percent = some (pos 10);
  max_cashback_amount = some (pos 15);
}

abbrev terms : Coupon ℤ → CouponTerms ℤ
terms c = record {
  amount = c.amount;
  cashback_percent = c.cashback_percent;
  max_cashback_amount = c.max_cashback_amount;
}

abbrev shop : Database ℤ
shop = record site { payment_transactions = recharge ∷ []; coupons = tenth ∷ [] }

abbrev digits : ℕ → String
digits n = if n == 5 then "5" else "1000000"

abbrev runtime : WebhookRuntime ℤ
runtime = record {
  today = 5000;
  date = λ t. t;
  show = digits;
  draws = 1_000_000 ∷ [];
  new_wallet = 10;
  without_order = λ rows. none;
  raw_coupon = terms;
}

abbrev event : String → String → WebhookPayment
event id status = record {
  order_id = some "order_1";
  id = id;
  status = status;
  method = some "upi";
  description = none;
  bank_transaction_id = none;
  rrn = some "rrn_1";
  email = none;
  contact = some "+91";
  vpa = none;
}

captured-Credits_example :
    (after : Database ℤ) × (process_payment_webhook runtime shop (event "pay_9" "captured") "nexin"
      ≡ some (after, WebhookResult.received))
    × Credits runtime shop recharge (event "pay_9" "captured") "nexin" 5 sample_wallet after
captured-Credits_example =
    captured-Credits runtime shop (event "pay_9" "captured") "nexin" "order_1" recharge 5
      sample_wallet refl refl refl refl refl refl (tt, tt) (ground arith)

ref_no_loop_ends_example :
    (ref_no : String) × (generate_unique_wallet_ref_no runtime shop 1 5 ≡ some ref_no)
    × (has_ref_no shop ref_no ≡ false)
ref_no_loop_ends_example = ref_no_loop_ends runtime shop 1 5 (tt, tt) (ground arith)

-- The wallet of the sample user after the recharge: 500, 200 and 15.
balance_test :
    (after : Database ℤ) × (process_payment_webhook runtime shop (event "pay_9" "captured") "nexin"
      ≡ some (after, WebhookResult.received))
    × (wallet_of_user after 5 ≡ some (record sample_wallet { balance = some (pos 715) }))
unfolding process_payment_webhook settle_payment settle_user_payment credit_wallet
    generate_unique_wallet_ref_no first_fresh save_balance update_payment find_active_coupon
    calculate_cashback apply_common_payment_fields
balance_test = (_, refl, refl)

captured_once_example :
    process_payment_webhook runtime balance_test.0 (event "pay_9" "failed") "nexin"
    ≡ some (balance_test.0, WebhookResult.already_processed)
captured_once_example =
    captured_once runtime runtime shop (event "pay_9" "captured") (event "pay_9" "failed") "nexin"
      "nexin" "order_1" recharge balance_test.0 WebhookResult.received refl refl refl refl
      balance_test.1 refl refl

abbrev paid_recharge : PaymentTransaction ℤ
paid_recharge = record recharge { status = PaymentStatus.success; payment_id = some "pay_9" }

abbrev paid_shop : Database ℤ
paid_shop = record shop { payment_transactions = paid_recharge ∷ [] }

-- The payment pay_9 had succeeded.
late_failure_reopens_payment_example :
    (after : Database ℤ) × (process_payment_webhook runtime paid_shop
        (event "pay_8" "failed")
        "nexin"
      ≡ some (after, WebhookResult.received))
    × MarkedFailed after "order_1"
    × (after.wallets ≡ paid_shop.wallets)
    × (after.wallet_transactions ≡ paid_shop.wallet_transactions)
late_failure_reopens_payment_example =
    late_failure_reopens_payment runtime paid_shop (event "pay_8" "failed") "nexin" "order_1"
      paid_recharge refl refl refl refl refl
