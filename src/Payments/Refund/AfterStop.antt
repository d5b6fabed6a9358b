-- ===== src/Payments/Refund/AfterStop.antt =====
-- The stop of a QR session (apps/ocpp-gateway/src/v16/handlers/stop-transaction.handler.ts) and
-- the refund that it asks for (modules/payments/src/services/qr-refund-listener.service.ts),
-- one after the other.
use nest_js_project.Prelude.{
  ℕ, ◌≡◌, refl, ap, ◌∙◌, Bool, true, false, ◌&&◌, not, is_some, inl, inr, Bool-cases, Option, some,
  [], ◌∷◌, String, ◌===◌, ◌==◌, find_one, holds, get_or_else, arith,
}
use nest_js_project.Schema.{
  ChannelSource, SessionStatus, DeviceTransaction, ChargingSession, Charger, Wallet,
  PaymentTransaction, PaymentConfig, Database,
}
use nest_js_project.Number.{Number, as_number}
use nest_js_project.Store.{
  transaction_of, session_of, session_by_id, session_by_id-update_self, update_session,
  update_transaction,
}
use nest_js_project.Ocpp.Runtime.{Runtime}
use nest_js_project.Ocpp.Effect.{QrRefundRequestPayload, publish_refund}
use nest_js_project.Ocpp.Stop.Reading.{StopMessage, total_wh}
use nest_js_project.Ocpp.Stop.Price.{Settlement, Actor}
use nest_js_project.Ocpp.Stop.Payment.{
  Bill, bill_of, record_bill, leftover_refund, qr_refunds, handle_qr_pay_stop,
}
use nest_js_project.Ocpp.Stop.{
  StopResult, pays_from_wallet, is_settled, notices, collect, settle, handle, complete_session,
  tariff_name_of, stopped_of, charger_of, how_settled,
}
use nest_js_project.Ocpp.Stop.Ledger.{bill_at, handle-settle}
use nest_js_project.Payments.Refund.{
  RefundProvider, refund, listen, apply_refund, close_refunded, mark_refunded, update_payment,
}

module _ {W : Type 0} where
  abbrev pub payment_for : QrRefundRequestPayload W → Database W → Option (PaymentTransaction W)
  payment_for payload db =
      find_one (λ p. holds (some p.id) payload.payment_transaction_id) db.payment_transactions

  abbrev pub config_for : QrRefundRequestPayload W → Database W → Option PaymentConfig
  config_for payload db = find_one (λ c. c.client_id == payload.client_id) db.payment_configs

  -- A provider that takes the refund: the payment and its provider are known, and the call succeeds.
  pub record Refundable (api : RefundProvider W) (payload : QrRefundRequestPayload W)
      (db : Database W) : Type 0 where
    pub payment : PaymentTransaction W
    pub config : PaymentConfig
    pub refund_id : String
    pub payment_known : payment_for payload db ≡ some payment
    pub config_known : config_for payload db ≡ some config
    pub is_razorpay : (api.lower (get_or_else config.provider "") === "razorpay") ≡ true
    pub responds : api.refund_payment payment.payment_id payload.refund_amount ≡ some refund_id

  refund_applies :
      (api : RefundProvider W) (payload : QrRefundRequestPayload W) (db : Database W)
      (r : Refundable api payload db)
      → refund api payload db ≡ apply_refund r.payment r.refund_id payload db
  unfolding refund
  refund_applies api payload db r =
      rw (r.payment_known, r.config_known, r.is_razorpay, r.responds) refl

qr_proceeds :
    (platform : Option ChannelSource) (b : Bool)
    → platform ≡ some ChannelSource.qrpay
    → pays_from_wallet platform && b ≡ false
qr_proceeds platform b e = rw e

module _ {W : Type 0} ⦃num : Number W⦄ where
  listen-notices :
      (api : RefundProvider W) (session : ChargingSession W) (dt : DeviceTransaction W)
      (user : Option Actor) (db : Database W)
      → listen api (notices session dt user) db ≡ db
  unfolding listen
  listen-notices api session dt user db = ground arith

  collect-qr :
      (rt : Runtime) (db : Database W) (session : ChargingSession W) (dt : DeviceTransaction W)
      (charger : Option Charger) (how : Settlement W) (bill : Bill W)
      (platform : Option ChannelSource) (wallet : Option (Wallet W))
      → platform ≡ some ChannelSource.qrpay
      → collect rt db session dt charger how bill platform wallet
        ≡ handle_qr_pay_stop db session dt bill.total_amount
  unfolding collect
  collect-qr rt db session dt charger how bill platform wallet e = rw e

  -- The payment of a QR session writes to the transactions only.
  abbrev KeepsRest : Database W → Database W → Type 0
  KeepsRest db after =
      (after.charging_sessions ≡ db.charging_sessions)
      × (after.payment_transactions ≡ db.payment_transactions)
      × (after.payment_configs ≡ db.payment_configs)

  qr_stop-KeepsRest :
      (db : Database W) (session : ChargingSession W) (dt : DeviceTransaction W) (total : W)
      → KeepsRest db (handle_qr_pay_stop db session dt total).0
  unfolding handle_qr_pay_stop update_transaction
  qr_stop-KeepsRest db session dt total =
      elim (Bool-cases (num.lt (as_number dt.max_amount) total)) [
        | inl over ↦ rw over (refl, refl, refl)
        | inr within ↦ rw within (refl, refl, refl)
      ]

  abbrev pub remaining_of : ChargingSession W → W → W
  remaining_of session total = num.sub (as_number session.max_amount) total

  -- One rupee or more is left of the session's payment.
  pub record HasLeftover (session : ChargingSession W) (total : W) : Type 0 where
    pub below_maximum : num.lt total (as_number session.max_amount) ≡ true
    pub one_rupee : num.le (num.of_ℕ 1) (remaining_of session total) ≡ true

  qr_calls :
      (db : Database W) (session : ChargingSession W) (dt : DeviceTransaction W) (total : W)
      → HasLeftover session total
      → (handle_qr_pay_stop db session dt total).1
        ≡ publish_refund (leftover_refund session dt (remaining_of session total)) ∷ []
  unfolding handle_qr_pay_stop qr_refunds
  qr_calls db session dt total left = rw (left.below_maximum, left.one_rupee) refl

  abbrev pub StatusAt : Database W → ℕ → Option SessionStatus → Type 0
  StatusAt db id status =
      (s : ChargingSession W) × (session_by_id db id ≡ some s) × (s.status ≡ status)

  pub refund-StatusAt :
      (api : RefundProvider W) (payload : QrRefundRequestPayload W) (db : Database W)
      (s : ChargingSession W)
      → Refundable api payload db
      → session_by_id db payload.session_row_id ≡ some s
      → StatusAt (refund api payload db) payload.session_row_id payload.new_status
  unfolding apply_refund close_refunded update_payment
  refund-StatusAt api payload db s r found = rw (refund_applies api payload db r) (
    close_refunded payload s,
    session_by_id-update_self payload.session_row_id (close_refunded payload)
        (update_payment r.payment.id (mark_refunded r.refund_id payload) db) s (λ x. refl) found,
    refl,
  )

  Refundable-keep :
      (api : RefundProvider W) (payload : QrRefundRequestPayload W) (db after : Database W)
      → after.payment_transactions ≡ db.payment_transactions
      → after.payment_configs ≡ db.payment_configs
      → Refundable api payload db
      → Refundable api payload after
  Refundable-keep api payload db after payments configs r = record {
    payment = r.payment;
    config = r.config;
    refund_id = r.refund_id;
    payment_known =
        ap (find_one (λ p. holds (some p.id) payload.payment_transaction_id)) payments
        ∙ r.payment_known;
    config_known = ap (find_one (λ c. c.client_id == payload.client_id)) configs ∙ r.config_known;
    is_razorpay = r.is_razorpay;
    responds = r.responds;
  }

  -- The session ends as completed, and a refund that follows sets it back to what it was.
  abbrev Reopens : RefundProvider W → ChargingSession W → StopResult W → Type 0
  Reopens api session result =
      StatusAt result.0 session.id (some SessionStatus.completed)
      × StatusAt (listen api result.1 result.0) session.id session.status

  settle-Reopens :
      (api : RefundProvider W) (rt : Runtime) (db : Database W) (msg : StopMessage W)
      (dt : DeviceTransaction W) (session : ChargingSession W) (charger : Option Charger)
      (how : Settlement W)
      → session.platform ≡ some ChannelSource.qrpay
      → session_by_id db session.id ≡ some session
      → let total = (bill_of how.required_price (total_wh msg dt)).total_amount in
        HasLeftover session total
        → Refundable api (leftover_refund session dt (remaining_of session total)) db
        → Reopens api session (settle rt db msg dt session charger how)
  unfolding settle complete_session leftover_refund update_session update_transaction listen
  settle-Reopens api rt db msg dt session charger how qr found left refundable =
      let bill = bill_of how.required_price (total_wh msg dt) in
      let total = bill.total_amount in
      let name = tariff_name_of session.platform how.tariff_type in
      let billed = update_transaction dt.id (record_bill bill name) db in
      let paid = (handle_qr_pay_stop billed session dt total).0 in
      let keeps = qr_stop-KeepsRest billed session dt total in
      let done = complete_session msg.reason name session in
      let completed =
        session_by_id-update_self session.id done paid session (λ x. refl)
          (ap (find_one (λ s. s.id == session.id)) keeps.0 ∙ found) in
      let after = update_session session.id done paid in
      let payload = leftover_refund session dt (remaining_of session total) in
      rw
        (
          collect-qr rt billed session dt charger how bill session.platform how.wallet qr,
          qr_calls billed session dt total left,
        )
        (
          (done session, completed, refl),
          rw (listen-notices api session dt how.user (refund api payload after)) (
              refund-StatusAt api payload after (done session)
                (Refundable-keep api payload db after keeps.1 keeps.2 refundable) completed),
        )

  -- A QR session that stops with a rupee or more left is completed, and a refund of the rest is
  -- requested. Once that refund has gone through, the session has again the status that it had
  -- before the stop.
  pub qr_refund_reopens_session :
      (api : RefundProvider W) (rt : Runtime) (db : Database W) (msg : StopMessage W)
      (dt : DeviceTransaction W) (session : ChargingSession W)
      → transaction_of db msg.transaction_id ≡ some dt
      → is_settled dt ≡ false
      → session_of db dt ≡ some session
      → session_by_id db session.id ≡ some session
      → session.platform ≡ some ChannelSource.qrpay
      → HasLeftover session (bill_at rt db msg dt session).total_amount
      → Refundable api
          (leftover_refund session dt
            (remaining_of session (bill_at rt db msg dt session).total_amount))
          db
      → let (after, calls, _) = handle rt db msg in
        StatusAt after session.id (some SessionStatus.completed)
        × StatusAt (listen api calls after) session.id session.status
  unfolding update_transaction
  qr_refund_reopens_session api rt db msg dt session found running there by_id qr left refundable =
      let how = how_settled rt db dt session in
      rw
        (handle-settle rt db msg dt session found running there
          (qr_proceeds session.platform (not (is_some how.wallet)) qr))
        (settle-Reopens api rt (stopped_of rt db msg dt) msg dt session (charger_of db dt) how qr
          by_id left
          (Refundable-keep api
            (leftover_refund session dt
              (remaining_of session (bill_at rt db msg dt session).total_amount))
            db (stopped_of rt db msg dt) refl refl refundable))
