-- ===== src/Payments/QrWebhook/Tests.antt =====
-- A QR payment at the sample charger, with a price and without.
use nest_js_project.Prelude.{◌≡◌, refl, none, some, [], ◌∷◌}
use nest_js_project.Prelude.Int.{ℤ, pos}
use nest_js_project.Schema.{ChargingSession, Connector, ConnectorStatus, Database}
use nest_js_project.Whole.{whole_number}
use nest_js_project.Samples.{clock, charger, site}
use nest_js_project.Ocpp.Effect.{remote_start}
use nest_js_project.Payments.QrWebhook.{
  QrPaymentEntity, QrPayload, QrRuntime, QrWebhookResult, process_webhook, qr_required_price,
  find_payment_by_payment_id, find_qr_code_with_charger_by_provider_id, insert_payment,
  qr_payment_row,
}
use nest_js_project.Payments.QrWebhook.Once.{delivered_once}
use nest_js_project.Payments.QrWebhook.Unpriced.{unpriced_payment_is_kept}
use nest_js_project.Payments.QrWebhook.Booked.{Booked, process_webhook-Booked}

abbrev connector : Connector
connector = record {
  id = 31;
  connector_id = "1";
  charger_id = 3;
  status = ConnectorStatus.available;
  info = none;
}

abbrev qr_site : Database ℤ
qr_site = record site {
  connectors = connector ∷ [];
  pay_charge_qr_codes = record { qr_provider_id = some "qr_1"; connector_id = 31 } ∷ [];
}

abbrev free_site : Database ℤ
free_site = record qr_site { tariffs = [] }

abbrev runtime : QrRuntime ℤ
runtime = record {
  runtime = clock;
  new_payment = 72;
  to_number = λ s. some 1;
  without_vendor = λ id rows. none;
}

abbrev payment : QrPaymentEntity ℤ
payment = record {
  id = "pay_2";
  amount = pos 20_000;
  currency = some "INR";
  order_id = none;
  method = some "upi";
  vpa = some "me@bank";
  email = none;
  contact = none;
}

abbrev payload : QrPayload ℤ
payload = record { event = some "qr_code.credited"; payment = some payment; qr_id = some "qr_1" }

process_webhook-Booked_example :
    (after : Database ℤ) × (session : ChargingSession ℤ) × (process_webhook runtime qr_site payload
        "brand"
      ≡ (
        after,
        remote_start "CP1" session.connector_id session.session_id ∷ [],
        QrWebhookResult.processed,
      ))
    × Booked runtime payment after session
unfolding find_payment_by_payment_id find_qr_code_with_charger_by_provider_id qr_required_price
process_webhook-Booked_example =
    process_webhook-Booked runtime qr_site payload payment "qr_1" "brand" connector charger
      (record { id = 8; price = some (pos 10); gst = some (pos 0) }) refl refl refl refl refl refl
      refl

unpriced_payment_is_kept_example :
    let after = insert_payment (qr_payment_row runtime payment "qr_1" "brand" charger) free_site in
    (process_webhook runtime free_site payload "brand"
      ≡ (after, [], QrWebhookResult.price_not_found))
    × (process_webhook runtime after payload "brand"
        ≡ (after, [], QrWebhookResult.already_processed))
    × (after.charging_sessions ≡ free_site.charging_sessions)
unfolding find_payment_by_payment_id find_qr_code_with_charger_by_provider_id qr_required_price
unpriced_payment_is_kept_example =
    unpriced_payment_is_kept runtime runtime free_site payload payment "qr_1" "brand" "brand"
      connector charger refl refl refl refl refl refl

delivered_once_example :
    let (after, _, _) = process_webhook runtime qr_site payload "brand" in
    ((process_webhook runtime after payload "brand").0 ≡ after)
    × ((process_webhook runtime after payload "brand").1 ≡ [])
delivered_once_example = delivered_once runtime runtime qr_site payload "brand" "brand"
