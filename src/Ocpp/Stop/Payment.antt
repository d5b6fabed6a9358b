-- ===== src/Ocpp/Stop/Payment.antt =====
-- The bill of a stopped session, and its three ways of payment: `handleOcpiStop`,
-- `handleQrPayStop` and `handleWalletDeduction` of v16/handlers/stop-transaction.handler.ts.
use nest_js_project.Prelude.{
  ℕ, Bool, true, false, ◌&&◌, Option, none, some, List, [], ◌∷◌, ◌++◌, String, if◌then◌else◌, ◌==◌,
  find_one, update_where, get_or_else, is_some, filled, holds,
}
use nest_js_project.Prelude.Text.{◌<>◌}
use nest_js_project.Schema.{
  ChannelSource, WalletType, WalletTxDirection, WalletTxPurpose, WalletSourceType,
  DeviceTransaction, ChargingSession, Charger, Wallet, WalletTransaction, PrefixConfig, OcpiEmsp,
  ClientDetail, Database,
}
use nest_js_project.Number.{Number, or_zero_if_not_positive, number_or_zero, as_number}
use nest_js_project.Ocpp.Runtime.{Runtime}
use nest_js_project.Ocpp.Raw.{undefined}
use nest_js_project.Ocpp.Effect.{
  Effect, QrRefundRequestPayload, of_transaction, publish_refund, ocpi_result, ocpi_patch_session,
  ocpi_cdr,
}
use nest_js_project.Store.{update_transaction}
use nest_js_project.Ocpp.Stop.Price.{Price, Actor}

pub record Bill (W : Type 0) : Type 0 where
  pub total_kwh : W
  pub amount : W
  pub gst_amount : W
  pub total_amount : W

abbrev pub charger_row : Option Charger → Option ℕ
charger_row none = none
charger_row (some c) = some c.id

-- `clientPrefix?.wallet ?? ''`, where the key of the row is `pc_wallet`.
abbrev pub raw_wallet_prefix : Option PrefixConfig → Option String
raw_wallet_prefix none = none
raw_wallet_prefix (some p) = undefined

-- `user?.clientId ?? deviceTransaction.clientId`.
abbrev pub actor_client : Option Actor → ℕ → ℕ
actor_client none client_id = client_id
actor_client (some a) client_id = get_or_else a.client_id client_id

abbrev pub shown_number : Runtime → Option ℕ → String
shown_number rt none = "null"
shown_number rt (some n) = rt.show n

-- `emsp?.token_b`, where the key of the row is `e_token_b`.
abbrev pub raw_token_b : Option OcpiEmsp → Option String
raw_token_b none = none
raw_token_b (some e) = undefined

abbrev pub is_from_ocpi : Option ChannelSource → Bool
is_from_ocpi (some ChannelSource.ocpi) = true
is_from_ocpi _ = false

module _ {W : Type 0} ⦃num : Number W⦄ where
  open num use {of_ℕ, add, sub, mul, div, lt, le, to_fixed}

  -- `requiredPrice?.price` and `requiredPrice?.gst`: no price is a price of zero.
  abbrev pub price_of : Option (Price W) → Option W
  price_of none = none
  price_of (some p) = p.price

  abbrev pub gst_of : Option (Price W) → Option W
  gst_of none = none
  gst_of (some p) = p.gst

  abbrev price_id : Option (Price W) → Option ℕ
  price_id none = none
  price_id (some p) = some p.id

  unfoldable pub bill_of : Option (Price W) → W → Bill W
  bill_of required_price total_wh =
      let gst = number_or_zero (gst_of required_price) in
      let total_kwh = div total_wh (of_ℕ 1000) in
      let amount = mul (number_or_zero (price_of required_price)) total_kwh in
      let gst_amount = if lt (of_ℕ 0) gst then div (mul gst amount) (of_ℕ 100) else of_ℕ 0 in
      record {
        total_kwh = total_kwh;
        amount = amount;
        gst_amount = gst_amount;
        total_amount = add amount gst_amount;
      }

  -- The second update of the transaction's row: it is settled, and carries its price.
  unfoldable pub record_bill : Bill W → String → DeviceTransaction W → DeviceTransaction W
  record_bill bill tariff_name dt = record dt {
    status = some 1;
    gst = some (or_zero_if_not_positive bill.gst_amount);
    amount = some (or_zero_if_not_positive bill.amount);
    price = some (or_zero_if_not_positive bill.total_amount);
    tariff_name = some tariff_name;
  }

  -- `updatedWallet?.balance`, where the key of the row is `w_balance`.
  abbrev pub raw_balance : Option (Wallet W) → Option W
  raw_balance none = none
  raw_balance (some w) = undefined

  abbrev lowered : W → Option W → Option W
  lowered deduction none = none
  lowered deduction (some balance) = some (sub balance deduction)

  -- `UPDATE wallets SET balance = balance - deduction WHERE id`.
  unfoldable pub deduct : ℕ → W → List (Wallet W) → List (Wallet W)
  deduct wallet_id deduction =
      update_where (λ w. w.id == wallet_id)
        (λ w. record w { balance = lowered deduction w.balance })

  unfoldable pub debit_entry :
      Runtime
      → Database W
      → List (Wallet W)
      → Wallet W
      → W
      → DeviceTransaction W
      → Option Charger
      → Option Actor
      → WalletTransaction W
  debit_entry rt db wallets wallet deduction dt charger user =
      let prefix =
        find_one (λ p. p.client_id == actor_client user dt.client_id) db.prefix_configs in
      record {
        ref_no = get_or_else (raw_wallet_prefix prefix) "" <> shown_number rt dt.transaction_id;
        wallet_id = wallet.id;
        amount = some deduction;
        charger_id = charger_row charger;
        type = WalletTxDirection.debit;
        remaining_balance =
            get_or_else (raw_balance (find_one (λ w. w.id == wallet.id) wallets)) (of_ℕ 0);
        user_type = if is_some dt.user_id then WalletType.user else WalletType.fleet;
        source_type = WalletSourceType.wallet;
        transaction_purpose = WalletTxPurpose.charging;
        transaction_ref = some dt.id;
        payment_transaction_id = none;
        client_id = get_or_else dt.initiated_client_id dt.client_id;
      }

  -- The balance falls by the bill, and the ledger gets an entry for it.
  unfoldable pub handle_wallet_deduction :
      Runtime
      → Database W
      → Wallet W
      → W
      → DeviceTransaction W
      → Option Charger
      → Option Actor
      → Database W
  unfolding deduct debit_entry
  handle_wallet_deduction rt db wallet total_amount dt charger user =
      let deduction = or_zero_if_not_positive total_amount in
      let wallets = deduct wallet.id deduction db.wallets in
      record db {
        wallets = wallets;
        wallet_transactions =
            db.wallet_transactions
            ++ debit_entry rt db wallets wallet deduction dt charger user ∷ [];
      }

  -- `owed` is taken from the row that was read before the updates.
  unfoldable pub mark_over_consumed : W → DeviceTransaction W → DeviceTransaction W
  mark_over_consumed owed row = record row {
    is_over_consumed_qr = some true;
    pending_recovery_amount_qr = some owed;
  }

  unfoldable pub leftover_refund :
      ChargingSession W → DeviceTransaction W → W → QrRefundRequestPayload W
  leftover_refund session dt remaining = record {
    session_row_id = session.id;
    payment_transaction_id = session.payment_transaction_id;
    client_id = session.client_id;
    session_code = session.session_id;
    reference_id = of_transaction dt.transaction_id;
    refund_amount = to_fixed 2 remaining;
    reason = "Refund issued for remaining amount";
    new_status = session.status;
  }

  -- What the payment left over, from one rupee on, is asked back for the payer.
  unfoldable pub qr_refunds : ChargingSession W → DeviceTransaction W → W → List (Effect W)
  unfolding leftover_refund
  qr_refunds session dt total_amount =
      let remaining = sub (as_number session.max_amount) total_amount in
      if lt total_amount (as_number session.max_amount) && le (of_ℕ 1) remaining
      then publish_refund (leftover_refund session dt remaining) ∷ []
      else []

  unfoldable pub handle_qr_pay_stop :
      Database W → ChargingSession W → DeviceTransaction W → W → Database W × List (Effect W)
  unfolding qr_refunds
  handle_qr_pay_stop db session dt total_amount = (
    if lt (as_number dt.max_amount) total_amount
        then update_transaction dt.id
            (mark_over_consumed (sub total_amount (as_number dt.max_amount))) db
        else db,
    qr_refunds session dt total_amount,
  )

  abbrev pub partner_result : Bool → Option String → List (Effect W)
  partner_result b none = []
  partner_result b (some url) = if filled (some url) && b then ocpi_result url ∷ [] else []

  abbrev cdr_of : Option Charger → ChargingSession W → Bill W → List (Effect W)
  cdr_of none session bill = []
  cdr_of (some c) session bill =
      ocpi_cdr session.id bill.total_kwh bill.amount (add bill.amount bill.gst_amount) ∷ []

  abbrev pub party_calls :
      Option String
      → ChargingSession W
      → Option Charger
      → Option (Price W)
      → Bill W
      → List (Effect W)
  party_calls none session charger price bill = []
  party_calls (some party) session charger price bill =
      if filled (some party)
      then ocpi_patch_session session.id (price_id price) bill.amount bill.gst_amount
        ∷ cdr_of charger session bill
      else []

  -- `clientDetails?.partyId`, where the key of the row is `cd_partyId`.
  abbrev pub raw_party_id : Option (ClientDetail W) → Option String
  raw_party_id none = none
  raw_party_id (some d) = undefined

  -- The calls to the roaming partner. A failure of one is caught, so that the others are made.
  unfoldable pub handle_ocpi_stop :
      Database W → ChargingSession W → Option Charger → Option (Price W) → Bill W → List (Effect W)
  handle_ocpi_stop db session charger price bill =
      partner_result
        (is_from_ocpi session.stop_from
          && filled (raw_token_b (find_one (λ e. holds (some e.id) session.emsp_id) db.ocpi_emsps)))
        session.msp_res_url
      ++ party_calls
          (raw_party_id (find_one (λ d. d.client_id == session.client_id) db.client_details))
          session charger price bill
