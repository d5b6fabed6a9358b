-- ===== src/Payments/QrWebhook/Once.antt =====
-- modules/payments/src/services/qr-pay-charge-webhook.service.ts: the same payload once more.
use nest_js_project.Prelude.{
  ◌≡◌, refl, ap, ◌∙◌, true, false, Bool-cases, inl, inr, Option, none, some, [], ◌∷◌, String,
  is_some, find_one, holds_text, text_beq_self, find_one-append,
}
use nest_js_project.Schema.{PaymentTransaction, Connector, Charger, Database}
use nest_js_project.Number.{Number}
use nest_js_project.Store.{update_session}
use nest_js_project.Ocpp.Stop.Price.{Price}
use nest_js_project.Payments.QrWebhook.{
  QrPaymentEntity, QrPayload, QrRuntime, QrResult, QrWebhookResult, process_webhook, on_entities,
  on_qr, on_price, is_credited, find_payment_by_payment_id,
  find_qr_code_with_charger_by_provider_id, insert_payment, qr_payment_row, qr_required_price,
  send_remote_start,
}

none_of : {A : Type 0} (o : Option A) → is_some o ≡ false → o ≡ none
none_of none h = refl
none_of (some a) h = cc

module _ {W : Type 0} where
  pub is_some-insert_payment :
      (db : Database W) (row : PaymentTransaction W) (id : String)
      → row.payment_id ≡ some id
      → is_some (find_payment_by_payment_id db id) ≡ false
      → is_some (find_payment_by_payment_id (insert_payment row db) id) ≡ true
  unfolding find_payment_by_payment_id insert_payment
  is_some-insert_payment db row id same absent =
      let test = λ (p : PaymentTransaction W). holds_text p.payment_id (some id) in
      let found : find_one test (row ∷ []) ≡ some row = rw (same, text_beq_self id) refl in
      ap is_some (
        find_one-append test db.payment_transactions (row ∷ [])
          (none_of (find_one test db.payment_transactions) absent)
        ∙ found)

module _ {W : Type 0} ⦃num : Number W⦄ where
  -- Another run on the same entities leaves the result's database alone, and calls nobody.
  abbrev SettledEntities :
      QrRuntime W → Option (QrPaymentEntity W) → Option String → String → QrResult W → Type 0
  SettledEntities later payment qr_id brand_name (after, _, _) =
      ((on_entities later after payment qr_id brand_name).0 ≡ after)
      × ((on_entities later after payment qr_id brand_name).1 ≡ [])

  known-SettledEntities :
      (later : QrRuntime W) (payment : QrPaymentEntity W) (qr_id brand_name : String)
      (result : QrResult W)
      → is_some (find_payment_by_payment_id result.0 payment.id) ≡ true
      → SettledEntities later (some payment) (some qr_id) brand_name result
  known-SettledEntities later payment qr_id brand_name (after, calls, answer) known =
      rw known (refl, refl)

  -- Whether or not a price is found, the payment is there afterwards.
  pub on_price-keeps :
      (qrt : QrRuntime W) (db : Database W) (payment : QrPaymentEntity W) (connector : Connector)
      (charger : Charger) (price : Option (Price W))
      → (on_price qrt db payment connector charger price).0.payment_transactions
        ≡ db.payment_transactions
  unfolding send_remote_start update_session
  on_price-keeps qrt db payment connector charger none = refl
  on_price-keeps qrt db payment connector charger (some price) = refl

  pub on_qr-known :
      (qrt : QrRuntime W) (db : Database W) (payment : QrPaymentEntity W)
      (qr_id brand_name : String) (connector : Connector) (charger : Charger)
      → is_some (find_payment_by_payment_id db payment.id) ≡ false
      → is_some (
          find_payment_by_payment_id
            (on_qr qrt db payment qr_id brand_name (some (connector, charger))).0
            payment.id)
        ≡ true
  unfolding find_payment_by_payment_id qr_payment_row
  on_qr-known qrt db payment qr_id brand_name connector charger absent =
      let row = qr_payment_row qrt payment qr_id brand_name charger in
      let paid = insert_payment row db in
      ap (λ ps. is_some (find_one (λ p. holds_text p.payment_id (some payment.id)) ps))
        (on_price-keeps qrt paid payment connector charger (qr_required_price qrt paid charger))
      ∙ is_some-insert_payment db row payment.id refl absent

  on_qr-SettledEntities :
      (qrt later : QrRuntime W) (db : Database W) (payment : QrPaymentEntity W)
      (qr_id brand_name brand_again : String) (found : Option (Connector × Charger))
      → is_some (find_payment_by_payment_id db payment.id) ≡ false
      → find_qr_code_with_charger_by_provider_id db qr_id ≡ found
      → SettledEntities later
          (some payment)
          (some qr_id)
          brand_again
          (on_qr qrt db payment qr_id brand_name found)
  on_qr-SettledEntities qrt later db payment qr_id brand_name brand_again none absent lookup =
      rw (absent, lookup) (refl, refl)
  on_qr-SettledEntities qrt later db payment qr_id brand_name brand_again
        (some (connector, charger)) absent lookup =
      known-SettledEntities later payment qr_id brand_again
        (on_qr qrt db payment qr_id brand_name (some (connector, charger)))
        (on_qr-known qrt db payment qr_id brand_name connector charger absent)

  on_entities-SettledEntities :
      (qrt later : QrRuntime W) (db : Database W) (payment : Option (QrPaymentEntity W))
      (qr_id : Option String) (brand_name brand_again : String)
      → SettledEntities later payment qr_id brand_again
          (on_entities qrt db payment qr_id brand_name)
  on_entities-SettledEntities qrt later db none qr_id brand_name brand_again = (refl, refl)
  on_entities-SettledEntities qrt later db (some payment) none brand_name brand_again = (refl, refl)
  on_entities-SettledEntities qrt later db (some payment) (some qr_id) brand_name brand_again =
      elim (Bool-cases (is_some (find_payment_by_payment_id db payment.id))) [
        | inl known ↦ rw known (
            known-SettledEntities later payment qr_id brand_again
              (db, [], QrWebhookResult.already_processed) known)
        | inr absent ↦ rw absent (
            on_qr-SettledEntities qrt later db payment qr_id brand_name brand_again
              (find_qr_code_with_charger_by_provider_id db qr_id) absent refl)
      ]

  -- The run of a payment that is new, down to the charger of its QR code.
  pub process-lookup :
      (qrt : QrRuntime W) (db : Database W) (payload : QrPayload W) (payment : QrPaymentEntity W)
      (qr_id brand_name : String) (found : Option (Connector × Charger))
      → is_credited payload ≡ true
      → payload.payment ≡ some payment
      → payload.qr_id ≡ some qr_id
      → is_some (find_payment_by_payment_id db payment.id) ≡ false
      → find_qr_code_with_charger_by_provider_id db qr_id ≡ found
      → process_webhook qrt db payload brand_name ≡ on_qr qrt db payment qr_id brand_name found
  unfolding process_webhook
  process-lookup qrt db payload payment qr_id brand_name found credited pays of_qr absent lookup =
      let reached : process_webhook qrt db payload brand_name
          ≡ on_entities qrt db payload.payment payload.qr_id brand_name =
        rw credited refl in
      reached
      ∙ ap (λ p. on_entities qrt db p payload.qr_id brand_name) pays
      ∙ ap (λ q. on_entities qrt db (some payment) q brand_name) of_qr
      ∙ rw (absent, lookup) refl

  -- A second delivery of a payload, whatever the first one came to, changes nothing in the database
  -- and starts no charger.
  pub delivered_once :
      (qrt later : QrRuntime W) (db : Database W) (payload : QrPayload W)
      (brand_name brand_again : String)
      → let (after, _, _) = process_webhook qrt db payload brand_name in
        ((process_webhook later after payload brand_again).0 ≡ after)
        × ((process_webhook later after payload brand_again).1 ≡ [])
  unfolding process_webhook
  delivered_once qrt later db payload brand_name brand_again =
      elim (Bool-cases (is_credited payload)) [
        | inl credited ↦ rw credited (
            on_entities-SettledEntities qrt later db payload.payment payload.qr_id brand_name
              brand_again)
        | inr other ↦ rw other (refl, refl)
      ]
