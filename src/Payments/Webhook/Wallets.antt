-- ===== src/Payments/Webhook/Wallets.antt =====
-- modules/payments/src/services/payment-webhook.service.ts: the wallet, the coupon's cashback, the
-- ledger's entries and their reference numbers.
use nest_js_project.Prelude.{
  ℕ, Bool, false, ◌&&◌, Option, none, some, List, [], ◌∷◌, ◌++◌, String, if◌then◌else◌, ◌===◌, ◌==◌,
  leb, find_one, update_where, get_or_else, is_some,
}
use nest_js_project.Prelude.Text.{◌<>◌}
use nest_js_project.Schema.{
  WalletType, WalletTxDirection, WalletTxPurpose, WalletSourceType, Wallet, WalletTransaction,
  PaymentTransaction, PrefixConfig, Coupon, Database,
}
use nest_js_project.Number.{Number, as_number, number_or_zero, is_truthy}

-- The columns that `calculateCashback` reads from the raw row of a coupon.
pub record CouponTerms (W : Type 0) : Type 0 where
  pub amount : Option W
  pub cashback_percent : Option W
  pub max_cashback_amount : Option W

-- What the service takes from the libraries and the run time.
pub record WebhookRuntime (W : Type 0) : Type 0 where
  pub today : ℕ  -- `new Date().toISOString().split('T')[0]`
  pub date : ℕ → ℕ  -- MySQL's DATE
  pub show : ℕ → String  -- `${n}`
  pub draws : List ℕ  -- what `generateSevenDigit` returns, call after call
  pub new_wallet : ℕ  -- the key of the next row of wallets
  pub without_order : List (PaymentTransaction W) → Option (PaymentTransaction W)
  pub raw_coupon : Coupon W → CouponTerms W  -- the columns under these names in `getRawOne()`

-- `a <= b` with a NULL is not true.
abbrev at_most : Option ℕ → ℕ → Bool
at_most none b = false
at_most (some a) b = leb a b

abbrev at_least : Option ℕ → ℕ → Bool
at_least none b = false
at_least (some a) b = leb b a

abbrev date_of : (ℕ → ℕ) → Option ℕ → Option ℕ
date_of date none = none
date_of date (some t) = some (date t)

-- `${clientPrefix?.wallet}`.
abbrev pub prefix_wallet : Option PrefixConfig → String
prefix_wallet none = "undefined"
prefix_wallet (some config) = get_or_else config.wallet "null"

module _ {W : Type 0} where
  unfoldable pub find_active_coupon : WebhookRuntime W → Database W → ℕ → Option (CouponTerms W)
  find_active_coupon rt db coupon_id =
      let active =
        find_one
          (λ c.
            c.id == coupon_id
            && at_most (date_of rt.date c.start_date) rt.today
            && at_least (date_of rt.date c.end_date) rt.today)
          db.coupons in
      elim active [ none ↦ none | some c ↦ some (rt.raw_coupon c) ]

  abbrev pub has_ref_no : Database W → String → Bool
  has_ref_no db ref_no = is_some (find_one (λ t. t.ref_no === ref_no) db.wallet_transactions)

  -- The loop over the numbers that are drawn: `none` once they run out.
  unfoldable pub first_fresh : Database W → (ℕ → String) → List ℕ → Option String
  first_fresh db ref_no [] = none
  first_fresh db ref_no (d ∷ ds) =
      let later = first_fresh db ref_no ds in
      if has_ref_no db (ref_no d) then later else some (ref_no d)

  abbrev pub wallet_ref_no : WebhookRuntime W → Database W → ℕ → ℕ → ℕ → String
  wallet_ref_no rt db client_id actor_id d =
      prefix_wallet (find_one (λ c. c.client_id == client_id) db.prefix_configs)
      <> rt.show actor_id
      <> rt.show d

  unfoldable pub generate_unique_wallet_ref_no :
      WebhookRuntime W → Database W → ℕ → ℕ → Option String
  generate_unique_wallet_ref_no rt db client_id actor_id =
      first_fresh db (wallet_ref_no rt db client_id actor_id) rt.draws

  unfoldable pub save_balance : ℕ → W → Database W → Database W
  save_balance wallet_id balance db = record db {
    wallets =
        update_where (λ w. w.id == wallet_id) (λ w. record w { balance = some balance }) db.wallets;
  }

  abbrev pub with_entries :
      Option String → (String → List (WalletTransaction W)) → Database W → Option (Database W)
  with_entries none entries db = none
  with_entries (some ref_no) entries db =
      some (record db { wallet_transactions = db.wallet_transactions ++ entries ref_no })

module _ {W : Type 0} ⦃num : Number W⦄ where
  open num use {of_ℕ, add, sub, mul, div, lt, min, to_fixed}

  abbrev pub percent_of : W → Option W → W
  percent_of recharge percent =
      number_or_zero (some (to_fixed 2 (div (mul recharge (number_or_zero percent)) (of_ℕ 100))))

  abbrev pub at_most_maximum : Option W → W → W
  at_most_maximum none x = x
  at_most_maximum (some maximum) x = if is_truthy maximum then min x maximum else x

  abbrev pub cashback_from : W → Option W → CouponTerms W → W
  cashback_from recharge none coupon = of_ℕ 0
  cashback_from recharge (some amount) coupon =
      if lt recharge amount
      then of_ℕ 0
      else at_most_maximum coupon.max_cashback_amount (percent_of recharge coupon.cashback_percent)

  unfoldable pub calculate_cashback : W → CouponTerms W → W
  calculate_cashback recharge coupon = cashback_from recharge coupon.amount coupon

  abbrev pub coupon_cashback : WebhookRuntime W → Database W → ℕ → W → Option W
  coupon_cashback rt db coupon_id recharge = elim (find_active_coupon rt db coupon_id) [
    | none ↦ none
    | some coupon ↦ some (calculate_cashback recharge coupon)
  ]

  abbrev pub open_wallet :
      WebhookRuntime W
      → WalletType
      → Option ℕ
      → Option ℕ
      → ℕ
      → Option (Wallet W)
      → Database W
      → Wallet W × Database W
  open_wallet rt type user_id fleet_id client_id (some wallet) db = (wallet, db)
  open_wallet rt type user_id fleet_id client_id none db =
      let wallet : Wallet W = record {
        id = rt.new_wallet;
        user_id = user_id;
        fleet_id = fleet_id;
        balance = some (of_ℕ 0);
        type = some type;
        client_id = client_id;
      } in
      (wallet, record db { wallets = db.wallets ++ wallet ∷ [] })

  -- `(wallet.balance || 0) + Number(amount)`, and `+= cashback` where a coupon applies.
  abbrev pub credited_balance : Wallet W → Option W → Option W → W
  credited_balance wallet amount none = add (number_or_zero wallet.balance) (as_number amount)
  credited_balance wallet amount (some cashback) =
      add (add (number_or_zero wallet.balance) (as_number amount)) cashback

  abbrev pub cashback_number : Option W → W
  cashback_number cashback = get_or_else cashback (of_ℕ 0)

  unfoldable pub credit_entry :
      Wallet W → PaymentTransaction W → WalletType → String → W → W → WalletTransaction W
  credit_entry wallet transaction user_type ref_no balance cashback = record {
    ref_no = ref_no;
    wallet_id = wallet.id;
    amount = transaction.amount;
    charger_id = none;
    type = WalletTxDirection.credit;
    remaining_balance = sub balance cashback;
    user_type = user_type;
    source_type = WalletSourceType.wallet;
    transaction_purpose = WalletTxPurpose.credits;
    transaction_ref = none;
    payment_transaction_id = some transaction.id;
    client_id = transaction.client_id;
  }

  unfoldable pub cashback_entry :
      Wallet W → PaymentTransaction W → WalletType → String → W → W → WalletTransaction W
  cashback_entry wallet transaction user_type ref_no balance cashback = record {
    ref_no = ref_no <> "CB";
    wallet_id = wallet.id;
    amount = some cashback;
    charger_id = none;
    type = WalletTxDirection.credit;
    remaining_balance = balance;
    user_type = user_type;
    source_type = WalletSourceType.coupon;
    transaction_purpose = WalletTxPurpose.cashback;
    transaction_ref = none;
    payment_transaction_id = none;
    client_id = transaction.client_id;
  }

  unfoldable pub ledger_entries :
      Wallet W → PaymentTransaction W → WalletType → String → W → W → List (WalletTransaction W)
  ledger_entries wallet transaction user_type ref_no balance cashback =
      credit_entry wallet transaction user_type ref_no balance cashback
      ∷ (if lt (of_ℕ 0) cashback
          then cashback_entry wallet transaction user_type ref_no balance cashback ∷ []
          else [])

  unfoldable pub credit_wallet :
      WebhookRuntime W
      → Database W
      → Wallet W
      → PaymentTransaction W
      → ℕ
      → WalletType
      → Option W
      → Option (Database W)
  credit_wallet rt db wallet transaction actor_id user_type cashback =
      let balance = credited_balance wallet transaction.amount cashback in
      let saved = save_balance wallet.id balance db in
      with_entries (generate_unique_wallet_ref_no rt saved transaction.client_id actor_id)
        (λ ref_no.
          ledger_entries wallet transaction user_type ref_no balance (cashback_number cashback))
        saved
