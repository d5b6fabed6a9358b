-- ===== src/Ocpp/Stop/Ledger.antt =====
-- What a stop that is paid from a wallet does to the wallet, the ledger and the transaction:
-- `handle` and `handleWalletDeduction` of v16/handlers/stop-transaction.handler.ts.
use nest_js_project.Prelude.{
  ℕ, ◌≡◌, refl, Bool, arith, true, false, ◌&&◌, not, ◌==◌, find_one, get_or_else, Option, none,
  some, [], ◌∷◌, ◌++◌, is_some,
}
use nest_js_project.Prelude.Text.{◌<>◌}
use nest_js_project.Schema.{
  ChannelSource, DeviceTransaction, ChargingSession, Charger, Wallet, WalletTransaction,
  PrefixConfig, Database,
}
use nest_js_project.Number.{Number, or_zero_if_not_positive}
use nest_js_project.Ocpp.Runtime.{Runtime}
use nest_js_project.Store.{
  transaction_of, session_of, update_transaction, update_session, transaction_of-update_self,
}
use nest_js_project.Ocpp.Stop.Reading.{StopMessage, record_stop, total_wh}
use nest_js_project.Ocpp.Stop.Price.{Settlement}
use nest_js_project.Ocpp.Stop.Payment.{
  Bill, bill_of, record_bill, deduct, debit_entry, shown_number, raw_balance, raw_wallet_prefix,
  actor_client, handle_wallet_deduction,
}
use nest_js_project.Ocpp.Stop.{
  StopResult, StopReply, approval, pays_from_wallet, is_settled, tariff_name_of, stopped_of,
  charger_of, how_settled, collect, settle, stop_session, handle,
}

reads_no_prefix :
    (rt : Runtime) (number : Option ℕ) (found : Option PrefixConfig)
    → get_or_else (raw_wallet_prefix found) "" <> shown_number rt number
      ≡ "" <> shown_number rt number
reads_no_prefix rt number none = refl
reads_no_prefix rt number (some p) = refl

module _ {W : Type 0} ⦃num : Number W⦄ where
  -- The total that the session is billed with, and what the wallet pays of it.
  abbrev pub bill_at :
      Runtime → Database W → StopMessage W → DeviceTransaction W → ChargingSession W → Bill W
  bill_at rt db msg dt session =
      bill_of (how_settled rt db dt session).required_price (total_wh msg dt)

  abbrev pub charge_at :
      Runtime → Database W → StopMessage W → DeviceTransaction W → ChargingSession W → W
  charge_at rt db msg dt session =
      or_zero_if_not_positive (bill_at rt db msg dt session).total_amount

  collect-wallet :
      (rt : Runtime) (db : Database W) (session : ChargingSession W) (dt : DeviceTransaction W)
      (charger : Option Charger) (how : Settlement W) (bill : Bill W)
      (platform : Option ChannelSource) (wallet : Wallet W) (found : Option (Wallet W))
      → pays_from_wallet platform ≡ true
      → found ≡ some wallet
      → collect rt db session dt charger how bill platform found
        ≡ (handle_wallet_deduction rt db wallet bill.total_amount dt charger how.user, [])
  unfolding collect
  collect-wallet rt db session dt charger how bill none wallet found h e = rw e
  collect-wallet rt db session dt charger how bill (some ChannelSource.ocpi) wallet found h e = cc
  collect-wallet rt db session dt charger how bill (some ChannelSource.qrpay) wallet found h e = cc
  collect-wallet rt db session dt charger how bill (some _) wallet found h e = rw e

  -- A stop that nothing refuses settles the session.
  pub handle-settle :
      (rt : Runtime) (db : Database W) (msg : StopMessage W) (dt : DeviceTransaction W)
      (session : ChargingSession W)
      → transaction_of db msg.transaction_id ≡ some dt
      → is_settled dt ≡ false
      → session_of db dt ≡ some session
      → pays_from_wallet session.platform && not (is_some (how_settled rt db dt session).wallet)
        ≡ false
      → handle rt db msg
        ≡ settle rt
            (stopped_of rt db msg dt)
            msg
            dt
            session
            (charger_of db dt)
            (how_settled rt db dt session)
  unfolding handle stop_session
  handle-settle rt db msg dt session found running there proceeds =
      rw (found, running, there, proceeds)

  proceeds :
      (pays : Bool) (wallet : Wallet W) (found : Option (Wallet W))
      → found ≡ some wallet
      → pays && not (is_some found) ≡ false
  proceeds pays wallet found h = ground arith

  -- The entry that a settled transaction adds to the ledger: its amount, its wallet, the transaction
  -- that it pays, a remaining balance of 0, whatever the wallet has left, and a reference number
  -- without the client's prefix.
  abbrev pub Debits :
      Runtime → Wallet W → W → DeviceTransaction W → Database W → Database W → Type 0
  Debits rt wallet charge dt db after =
      (entry : WalletTransaction W) × (after.wallet_transactions
        ≡ db.wallet_transactions ++ entry ∷ [])
      × (entry.amount ≡ some charge)
      × (entry.wallet_id ≡ wallet.id)
      × (entry.transaction_ref ≡ some dt.id)
      × (entry.remaining_balance ≡ num.of_ℕ 0)
      × (entry.ref_no ≡ "" <> shown_number rt dt.transaction_id)

  -- The row that the transaction number leads to is settled at the price.
  abbrev pub PricedAt : ℕ → W → Database W → Type 0
  PricedAt n charge after =
      (row : DeviceTransaction W) × (transaction_of after n ≡ some row)
      × (row.price ≡ some charge)
      × (row.status ≡ some 1)

  reads_no_balance :
      (found : Option (Wallet W)) → get_or_else (raw_balance found) (num.of_ℕ 0) ≡ num.of_ℕ 0
  reads_no_balance none = refl
  reads_no_balance (some w) = refl

  deduction-Debits :
      (rt : Runtime) (db : Database W) (wallet : Wallet W) (total : W) (dt : DeviceTransaction W)
      (charger : Option Charger) (how : Settlement W)
      → Debits rt wallet
          (or_zero_if_not_positive total)
          dt
          db
          (handle_wallet_deduction rt db wallet total dt charger how.user)
  unfolding handle_wallet_deduction debit_entry
  deduction-Debits rt db wallet total dt charger how = (
    debit_entry rt db (deduct wallet.id (or_zero_if_not_positive total) db.wallets) wallet
        (or_zero_if_not_positive total) dt charger how.user,
    refl,
    refl,
    refl,
    refl,
    reads_no_balance (
        find_one (λ w. w.id == wallet.id)
          (deduct wallet.id (or_zero_if_not_positive total) db.wallets)),
    reads_no_prefix rt dt.transaction_id
        (find_one (λ p. p.client_id == actor_client how.user dt.client_id) db.prefix_configs),
  )

  abbrev Conserves :
      Runtime
      → ℕ
      → StopReply
      → W
      → Wallet W
      → DeviceTransaction W
      → Database W
      → StopResult W
      → Type 0
  Conserves rt n reply charge wallet dt db result =
      (result.2 ≡ reply)
      × (result.0.wallets ≡ deduct wallet.id charge db.wallets)
      × Debits rt wallet charge dt db result.0
      × PricedAt n charge result.0

  settle-Conserves :
      (rt : Runtime) (db : Database W) (msg : StopMessage W) (dt row : DeviceTransaction W)
      (session : ChargingSession W) (charger : Option Charger) (how : Settlement W)
      (wallet : Wallet W)
      → transaction_of db msg.transaction_id ≡ some row
      → row.id ≡ dt.id
      → pays_from_wallet session.platform ≡ true
      → how.wallet ≡ some wallet
      → Conserves rt msg.transaction_id
          (approval msg.is_abnormal_admin_stop msg.uuid)
          (or_zero_if_not_positive (bill_of how.required_price (total_wh msg dt)).total_amount)
          wallet
          dt
          db
          (settle rt db msg dt session charger how)
  unfolding settle update_session handle_wallet_deduction record_bill update_transaction
  settle-Conserves rt db msg dt row session charger how wallet found same pays has =
      let bill = bill_of how.required_price (total_wh msg dt) in
      let set = record_bill bill (tariff_name_of session.platform how.tariff_type) in
      let billed = update_transaction dt.id set db in
      rw
        (collect-wallet rt billed session dt charger how bill session.platform wallet how.wallet
          pays has)
        (
          refl,
          refl,
          deduction-Debits rt billed wallet bill.total_amount dt charger how,
          (
            set row,
            transaction_of-update_self dt.id msg.transaction_id set db row (λ x. refl) found same,
            refl,
            refl,
          ),
        )

  -- A running transaction of a wallet platform, with its session and its wallet there, is accepted.
  -- The wallet falls by the charge, the ledger gets one entry for the same charge, and the transaction
  -- is settled at that price. The entry says that the wallet has 0 left, whatever it has, and its
  -- reference number is the transaction's without the client's prefix: both are read from rows under
  -- names that the rows do not have.
  pub wallet_stop_conserves :
      (rt : Runtime) (db : Database W) (msg : StopMessage W) (dt : DeviceTransaction W)
      (session : ChargingSession W) (wallet : Wallet W)
      → transaction_of db msg.transaction_id ≡ some dt
      → is_settled dt ≡ false
      → session_of db dt ≡ some session
      → pays_from_wallet session.platform ≡ true
      → (how_settled rt db dt session).wallet ≡ some wallet
      → let charge = charge_at rt db msg dt session in
        let (after, _, reply) = handle rt db msg in
        (reply ≡ approval msg.is_abnormal_admin_stop msg.uuid)
        × (after.wallets ≡ deduct wallet.id charge db.wallets)
        × Debits rt wallet charge dt db after
        × PricedAt msg.transaction_id charge after
  unfolding record_stop update_transaction
  wallet_stop_conserves rt db msg dt session wallet found running there pays has =
      rw
        (handle-settle rt db msg dt session found running there (
          proceeds (pays_from_wallet session.platform) wallet (how_settled rt db dt session).wallet
            has))
        (settle-Conserves rt (stopped_of rt db msg dt) msg dt (record_stop rt msg dt dt) session
          (charger_of db dt) (how_settled rt db dt session) wallet
          (transaction_of-update_self dt.id msg.transaction_id (record_stop rt msg dt) db dt
            (λ x. refl) found refl)
          refl pays has)
