-- ===== src/Payments/QrWebhook/Unpriced.antt =====
-- modules/payments/src/services/qr-pay-charge-webhook.service.ts: a QR payment at a charger that has
-- no price.
use nest_js_project.Prelude.{◌≡◌, refl, ap, ◌∙◌, true, false, none, some, [], String, is_some}
use nest_js_project.Schema.{Connector, Charger, Database}
use nest_js_project.Number.{Number}
use nest_js_project.Payments.QrWebhook.{
  QrPaymentEntity, QrPayload, QrRuntime, QrWebhookResult, process_webhook, on_entities, is_credited,
  find_payment_by_payment_id, find_qr_code_with_charger_by_provider_id, insert_payment,
  qr_payment_row, qr_required_price,
}
use nest_js_project.Payments.QrWebhook.Once.{is_some-insert_payment, process-lookup}

module _ {W : Type 0} ⦃num : Number W⦄ where
  -- A QR payment at a charger without a price is recorded as successful, but neither books a session
  -- nor starts the charger nor asks for a refund. Every later delivery of the payload finds it
  -- processed, so that the payment stays without a session.
  pub unpriced_payment_is_kept :
      (qrt later : QrRuntime W) (db : Database W) (payload : QrPayload W)
      (payment : QrPaymentEntity W) (qr_id brand_name brand_again : String) (connector : Connector)
      (charger : Charger)
      → is_credited payload ≡ true
      → payload.payment ≡ some payment
      → payload.qr_id ≡ some qr_id
      → is_some (find_payment_by_payment_id db payment.id) ≡ false
      → find_qr_code_with_charger_by_provider_id db qr_id ≡ some (connector, charger)
      → qr_required_price qrt db charger ≡ none
      → let after = insert_payment (qr_payment_row qrt payment qr_id brand_name charger) db in
        (process_webhook qrt db payload brand_name ≡ (after, [], QrWebhookResult.price_not_found))
        × (process_webhook later after payload brand_again
            ≡ (after, [], QrWebhookResult.already_processed))
        × (after.charging_sessions ≡ db.charging_sessions)
  unfolding process_webhook insert_payment qr_required_price qr_payment_row
  unpriced_payment_is_kept qrt later db payload payment qr_id brand_name brand_again connector
        charger credited pays of_qr absent lookup unpriced =
      let row = qr_payment_row qrt payment qr_id brand_name charger in
      let after = insert_payment row db in
      let known = is_some-insert_payment db row payment.id refl absent in
      let reached : process_webhook later after payload brand_again
          ≡ on_entities later after payload.payment payload.qr_id brand_again =
        rw credited refl in
      (
        process-lookup qrt db payload payment qr_id brand_name (some (connector, charger)) credited
              pays of_qr absent lookup
            ∙ rw unpriced refl,
        reached
            ∙ ap (λ p. on_entities later after p payload.qr_id brand_again) pays
            ∙ ap (λ q. on_entities later after (some payment) q brand_again) of_qr
            ∙ rw known refl,
        refl,
      )
