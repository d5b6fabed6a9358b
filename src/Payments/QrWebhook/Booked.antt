-- ===== src/Payments/QrWebhook/Booked.antt =====
-- modules/payments/src/services/qr-pay-charge-webhook.service.ts: a QR payment that books a session,
-- and the sweep (apps/scheduler/src/queue/qr-sweep.service.ts) that takes it from there.
use nest_js_project.Prelude.{
  ◌≡◌, refl, ◌∙◌, ◌+◌, true, false, none, some, [], ◌∷◌, String, is_some, find_one-append, beq_self,
  ◌==◌,
}
use nest_js_project.Schema.{ChargingSession, Connector, Charger, Database}
use nest_js_project.Number.{Number}
use nest_js_project.Store.{insert_session, session_by_id, session_by_id-update_self, update_session}
use nest_js_project.Ocpp.Effect.{remote_start}
use nest_js_project.Ocpp.Stop.Price.{Price}
use nest_js_project.Scheduler.Sweep.{is_due, attempts_of, remote_start_timeout_ms, set_remote_start}
use nest_js_project.Payments.QrWebhook.{
  QrPaymentEntity, QrPayload, QrRuntime, QrWebhookResult, process_webhook, is_credited,
  find_payment_by_payment_id, find_qr_code_with_charger_by_provider_id, insert_payment,
  qr_payment_row, qr_session, qr_required_price, received_amount, send_remote_start,
}
use nest_js_project.Payments.QrWebhook.Once.{is_some-insert_payment, process-lookup}

module _ {W : Type 0} where
  session_by_id-insert :
      (db : Database W) (s : ChargingSession W)
      → session_by_id db s.id ≡ none
      → session_by_id (insert_session s db) s.id ≡ some s
  session_by_id-insert db s absent =
      find_one-append (λ x. x.id == s.id) db.charging_sessions (s ∷ []) absent
      ∙ rw (beq_self s.id) refl

module _ {W : Type 0} ⦃num : Number W⦄ where
  -- The session that a payment books: paid by that payment and limited to its amount, attempted once,
  -- and up to the sweep.
  pub record Booked (qrt : QrRuntime W) (payment : QrPaymentEntity W) (after : Database W)
      (session : ChargingSession W) : Type 0 where
    pub there : session_by_id after qrt.runtime.new_session ≡ some session
    pub due : is_due session ≡ true
    pub attempted : attempts_of session ≡ 1
    pub paid_by : session.payment_transaction_id ≡ some qrt.new_payment
    pub limited : session.max_amount ≡ some (received_amount payment)
    pub recorded : is_some (find_payment_by_payment_id after payment.id) ≡ true

  -- A new QR payment at a charger with a price is recorded, and books a session under a new key that
  -- is paid by it, limited to its amount and due for the sweep after one attempt; the charger is sent
  -- one RemoteStart, with the session's code.
  pub process_webhook-Booked :
      (qrt : QrRuntime W) (db : Database W) (payload : QrPayload W) (payment : QrPaymentEntity W)
      (qr_id brand_name : String) (connector : Connector) (charger : Charger) (price : Price W)
      → is_credited payload ≡ true
      → payload.payment ≡ some payment
      → payload.qr_id ≡ some qr_id
      → is_some (find_payment_by_payment_id db payment.id) ≡ false
      → find_qr_code_with_charger_by_provider_id db qr_id ≡ some (connector, charger)
      → qr_required_price qrt db charger ≡ some price
      → session_by_id db qrt.runtime.new_session ≡ none
      → (after : Database W) × (session : ChargingSession W) × (process_webhook qrt db payload
            brand_name
          ≡ (
            after,
            remote_start charger.charger_id session.connector_id session.session_id ∷ [],
            QrWebhookResult.processed,
          ))
        × Booked qrt payment after session
  unfolding insert_payment qr_required_price qr_session send_remote_start set_remote_start
      qr_payment_row find_payment_by_payment_id update_session
  process_webhook-Booked qrt db payload payment qr_id brand_name connector charger price credited
        pays of_qr absent lookup priced unused =
      let row = qr_payment_row qrt payment qr_id brand_name charger in
      let paid = insert_payment row db in
      let session = qr_session qrt paid payment connector charger price in
      let set = set_remote_start 1 (qrt.runtime.now + remote_start_timeout_ms) in
      (
        update_session session.id set (insert_session session paid),
        set session,
        process-lookup qrt db payload payment qr_id brand_name (some (connector, charger)) credited
              pays of_qr absent lookup
            ∙ rw priced refl,
        record {
          there =
              session_by_id-update_self session.id set (insert_session session paid) session
                (λ x. refl) (session_by_id-insert paid session unused);
          due = refl;
          attempted = refl;
          paid_by = refl;
          limited = refl;
          recorded = is_some-insert_payment db row payment.id refl absent;
        },
      )
