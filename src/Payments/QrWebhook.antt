-- ===== src/Payments/QrWebhook.antt =====
-- modules/payments/src/services/qr-pay-charge-webhook.service.ts, with its queries in
-- repositories/pay-charge-qr.repository.ts: a QR payment that comes in is recorded, and books a
-- charging session that is started at once. The payload that the code keeps in the column webhook is
-- not represented.
pub mod Once
pub mod Unpriced
pub mod Booked
mod Tests
use nest_js_project.Prelude.{
  ℕ, ◌+◌, Bool, true, false, ◌&&◌, Option, none, some, List, [], ◌∷◌, ◌++◌, String, if◌then◌else◌,
  ◌===◌, ◌==◌, find_one, holds, holds_text, is_some, is_null, filled, get_or_else,
}
use nest_js_project.Prelude.Text.{◌<>◌}
use nest_js_project.Schema.{
  ChannelSource, SessionStatus, PaymentActorType, PaymentStatus, TransactionDirection,
  PaymentProvider, PaymentPurpose, PaymentTransaction, PrefixConfig, PayChargeQrCode,
  ChargingSession, Connector, Charger, Tariff, RoamingTariff, Database,
}
use nest_js_project.Number.{Number, number_or_zero}
use nest_js_project.Store.{insert_session, update_session}
use nest_js_project.Ocpp.Runtime.{Runtime}
use nest_js_project.Ocpp.Effect.{Effect, remote_start}
use nest_js_project.Ocpp.Stop.Price.{Price, of_tariff}
use nest_js_project.Ocpp.Start.Energy.{amount_to_energy_conversion}
use nest_js_project.Scheduler.Sweep.{remote_start_timeout_ms, set_remote_start}

pub record QrPaymentEntity (W : Type 0) : Type 0 where
  pub id : String
  pub amount : W
  pub currency : Option String
  pub order_id : Option String
  pub method : Option String
  pub vpa : Option String
  pub email : Option String
  pub contact : Option String

pub record QrPayload (W : Type 0) : Type 0 where
  pub event : Option String
  pub payment : Option (QrPaymentEntity W)
  pub qr_id : Option String  -- the number of the QR code's entity, where that is there

-- What the service takes from the run time and the libraries, besides what a handler takes.
pub record QrRuntime (W : Type 0) : Type 0 where
  pub runtime : Runtime
  pub new_payment : ℕ  -- the key of the next row of paymenttransactions
  pub to_number : String → Option ℕ  -- `Number(connector.connectorId)`, and nothing for NaN
  -- `findOne` of the standard tariff of a charger that has no vendor.
  pub without_vendor : ℕ → List (Tariff W) → Option (Tariff W)

pub data QrWebhookResult : Type 0 where
  processed invalid_payload already_processed qr_not_found price_not_found : QrWebhookResult

abbrev pub QrResult : Type 0 → Type 0
QrResult W = Database W × List (Effect W) × QrWebhookResult

abbrev qr_session_prefix : Option PrefixConfig → String
qr_session_prefix none = ""
qr_session_prefix (some config) = get_or_else config.session ""

module _ {W : Type 0} where
  unfoldable pub find_payment_by_payment_id : Database W → String → Option (PaymentTransaction W)
  find_payment_by_payment_id db payment_id =
      find_one (λ p. holds_text p.payment_id (some payment_id)) db.payment_transactions

  abbrev with_charger : Database W → Option Connector → Option (Connector × Charger)
  with_charger db none = none
  with_charger db (some connector) =
      elim (find_one (λ c. c.id == connector.charger_id) db.chargers) [
        | none ↦ none
        | some charger ↦ some (connector, charger)
      ]

  abbrev with_connector : Database W → Option PayChargeQrCode → Option (Connector × Charger)
  with_connector db none = none
  with_connector db (some qr) =
      with_charger db (find_one (λ c. c.id == qr.connector_id) db.connectors)

  unfoldable pub find_qr_code_with_charger_by_provider_id :
      Database W → String → Option (Connector × Charger)
  find_qr_code_with_charger_by_provider_id db qr_id =
      with_connector db
        (find_one (λ q. holds_text q.qr_provider_id (some qr_id)) db.pay_charge_qr_codes)

  abbrev standard_qr_price : QrRuntime W → Database W → Charger → Option ℕ → Option (Tariff W)
  standard_qr_price qrt db charger none = qrt.without_vendor charger.id db.tariffs
  standard_qr_price qrt db charger (some vendor_id) =
      find_one
        (λ t.
          holds t.vendor_id (some vendor_id)
          && t.charger_id == charger.id
          && is_null t.user_type_id)
        db.tariffs

  abbrev roaming_or_standard :
      QrRuntime W → Database W → Charger → Option (RoamingTariff W) → Option (Price W)
  roaming_or_standard qrt db charger (some r) =
      some (record { id = r.id; price = r.price; gst = r.gst })
  roaming_or_standard qrt db charger none =
      of_tariff (standard_qr_price qrt db charger charger.vendor_id)

  unfoldable pub qr_required_price : QrRuntime W → Database W → Charger → Option (Price W)
  qr_required_price qrt db charger = roaming_or_standard qrt db charger (
      find_one
        (λ r.
          r.charger_id == charger.id
          && r.client_id == charger.client_id
          && holds_text r.tariff_type (some "QRPAY")
          && is_null r.import_client_id
          && is_null r.emsp_id)
        db.roaming_tariffs)

  unfoldable pub insert_payment : PaymentTransaction W → Database W → Database W
  insert_payment row db = record db { payment_transactions = db.payment_transactions ++ row ∷ [] }

module _ {W : Type 0} ⦃num : Number W⦄ where
  open num use {of_ℕ, div}

  abbrev pub received_amount : QrPaymentEntity W → W
  received_amount payment = div payment.amount (of_ℕ 100)

  unfoldable pub qr_payment_row :
      QrRuntime W → QrPaymentEntity W → String → String → Charger → PaymentTransaction W
  qr_payment_row qrt payment qr_id brand_name charger = record {
    id = qrt.new_payment;
    order_id = payment.order_id;
    payment_id = some payment.id;
    user_id = none;
    fleet_id = none;
    coupon_id = none;
    amount = some (received_amount payment);
    status = PaymentStatus.success;
    client_id = charger.client_id;
    payment_type = payment.method;
    currency = payment.currency;
    description = some "QRPAYMENT";
    type = some PaymentActorType.qr_user;
    transaction_type = some TransactionDirection.credit;
    utr = none;
    hook = some brand_name;
    provider = PaymentProvider.razorpay;
    payment_purpose = PaymentPurpose.pay_and_charge;
    provider_qr_id = some qr_id;
    paid_user = if filled payment.contact then payment.contact else payment.vpa;
    paid_user_email = payment.email;
    refund_id = none;
    refund_amount = none;
  }

  unfoldable pub qr_session :
      QrRuntime W
      → Database W
      → QrPaymentEntity W
      → Connector
      → Charger
      → Price W
      → ChargingSession W
  qr_session qrt db payment connector charger price =
      let prefix =
        qr_session_prefix (find_one (λ p. p.client_id == charger.client_id) db.prefix_configs) in
      record {
        id = qrt.runtime.new_session;
        transaction_id = none;
        session_id = some (prefix <> qrt.runtime.random_hex);
        user_id = none;
        max_energy = some (
            amount_to_energy_conversion (received_amount payment) (number_or_zero price.gst)
              (number_or_zero price.price) true);
        max_amount = some (received_amount payment);
        connector_id = qrt.to_number connector.connector_id;
        charger_id = some charger.charger_id;
        reason = none;
        status = some SessionStatus.initiated;
        platform = some ChannelSource.qrpay;
        stop_from = none;
        charger_ref = some charger.id;
        calc_tax_percent = some (number_or_zero price.gst);
        calc_price = some (number_or_zero price.price);
        tariff_name = some "QR_PAYMENT_TARIFF";
        fleet_id = none;
        start_driver_id = none;
        rfid_tag = none;
        emsp_id = none;
        msp_res_url = none;
        client_id = charger.client_id;
        initiated_client_id = none;
        max_charging_percentage = none;
        payment_transaction_id = some qrt.new_payment;
        remote_start_attempts = some 0;
        next_action_at = none;
        failure_reason = none;
        created_at = qrt.runtime.now;
      }

  -- `sendRemoteStart` with the first attempt.
  unfoldable pub send_remote_start :
      Runtime → Charger → ChargingSession W → ℕ → Database W → Database W × List (Effect W)
  send_remote_start rt charger session attempt db = (
    update_session session.id (set_remote_start attempt (rt.now + remote_start_timeout_ms)) db,
    remote_start charger.charger_id session.connector_id session.session_id ∷ [],
  )

  abbrev pub on_price :
      QrRuntime W
      → Database W
      → QrPaymentEntity W
      → Connector
      → Charger
      → Option (Price W)
      → QrResult W
  on_price qrt db payment connector charger none = (db, [], QrWebhookResult.price_not_found)
  on_price qrt db payment connector charger (some price) =
      let session = qr_session qrt db payment connector charger price in
      let (started, calls) =
        send_remote_start qrt.runtime charger session 1 (insert_session session db) in
      (started, calls, QrWebhookResult.processed)

  abbrev pub on_qr :
      QrRuntime W
      → Database W
      → QrPaymentEntity W
      → String
      → String
      → Option (Connector × Charger)
      → QrResult W
  on_qr qrt db payment qr_id brand_name none = (db, [], QrWebhookResult.qr_not_found)
  on_qr qrt db payment qr_id brand_name (some (connector, charger)) =
      let paid = insert_payment (qr_payment_row qrt payment qr_id brand_name charger) db in
      on_price qrt paid payment connector charger (qr_required_price qrt paid charger)

  abbrev pub on_entities :
      QrRuntime W → Database W → Option (QrPaymentEntity W) → Option String → String → QrResult W
  on_entities qrt db (some payment) (some qr_id) brand_name =
      if is_some (find_payment_by_payment_id db payment.id)
      then (db, [], QrWebhookResult.already_processed)
      else on_qr qrt db payment qr_id brand_name (find_qr_code_with_charger_by_provider_id db qr_id)
  on_entities qrt db payment qr_id brand_name = (db, [], QrWebhookResult.invalid_payload)

  abbrev pub is_credited : QrPayload W → Bool
  is_credited payload = holds_text payload.event (some "qr_code.credited")

  unfoldable pub process_webhook : QrRuntime W → Database W → QrPayload W → String → QrResult W
  process_webhook qrt db payload brand_name =
      if is_credited payload
      then on_entities qrt db payload.payment payload.qr_id brand_name
      else (db, [], QrWebhookResult.processed)
