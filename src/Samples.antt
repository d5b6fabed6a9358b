-- ===== src/Samples.antt =====
-- Rows for the tests, over whole numbers: one charger with one tariff, a user with a wallet, and a
-- session of that user and one paid by QR.
use nest_js_project.Prelude.{ℕ, ◌+◌, false, none, some, [], ◌∷◌}
use nest_js_project.Prelude.Int.{ℤ, pos}
use nest_js_project.Schema.{
  ChannelSource, SessionStatus, ChargerStatus, WalletType, PaymentActorType, PaymentStatus,
  TransactionDirection, PaymentProvider, PaymentPurpose, DeviceTransaction, ChargingSession,
  Charger, Wallet, PaymentTransaction, PaymentConfig, Tariff, Database,
}
use nest_js_project.Ocpp.Runtime.{Runtime}

-- Noon and midnight of days that are a hundred long.
abbrev pub clock : Runtime
clock = record {
  now = 5000;
  midnight = λ t. t;
  day_end = λ t. t + 99;
  show = λ n. "1";
  random_hex = "A1";
  new_transaction = 13;
  new_session = 23;
  kolkata_date = 5000;
  kolkata_time = "12:00:00";
}

abbrev pub running_transaction : ℕ → ℕ → DeviceTransaction ℤ
running_transaction id user = record {
  id = id;
  transaction_id = some (1_000_000 + id);
  mac_id = none;
  vehicle_id = none;
  charger_ref = some 3;
  charger_id = some "CP1";
  connector_id = some "1";
  user_id = some user;
  start_date = some 1000;
  stop_date = none;
  chargin_duration = some (pos 0);
  start_meter_value = some (pos 2000);
  stop_meter_value = some (pos 6000);
  total_wh = some (pos 4000);
  status = some 0;
  reason = none;
  amount = none;
  gst = none;
  price = none;
  max_energy = some (pos 20);
  max_amount = some (pos 200);
  start_soc = some (pos 20);
  stop_soc = some (pos 0);
  is_dual_mode = some false;
  meter_value_store = none;
  platform = some ChannelSource.android;
  stop_from = none;
  calc_tax_percent = some (pos 0);
  calc_price = some (pos 10);
  tariff_name = none;
  fleet_id = none;
  start_driver_id = none;
  rfid_tag = none;
  emsp_id = none;
  is_abnormal_stop = false;
  client_id = 1;
  initiated_client_id = none;
  payment_transaction_id = some 70;
  is_over_consumed_qr = none;
  pending_recovery_amount_qr = none;
  created_at = some 1000;
}

abbrev pub started_session : ℕ → ℕ → ChannelSource → ChargingSession ℤ
started_session id transaction platform = record {
  id = id;
  transaction_id = some transaction;
  session_id = some "NEX1";
  user_id = some 5;
  max_energy = some (pos 20);
  max_amount = some (pos 200);
  connector_id = some 1;
  charger_id = some "CP1";
  reason = none;
  status = some SessionStatus.started;
  platform = some platform;
  stop_from = none;
  charger_ref = some 3;
  calc_tax_percent = some (pos 0);
  calc_price = some (pos 10);
  tariff_name = none;
  fleet_id = none;
  start_driver_id = none;
  rfid_tag = none;
  emsp_id = none;
  msp_res_url = none;
  client_id = 1;
  initiated_client_id = none;
  max_charging_percentage = none;
  payment_transaction_id = some 70;
  remote_start_attempts = some 0;
  next_action_at = none;
  failure_reason = none;
  created_at = 900;
}

abbrev pub charger : Charger
charger = record {
  id = 3;
  charger_id = "CP1";
  vendor_id = some 4;
  station_id = some 6;
  client_id = 1;
  status = ChargerStatus.active;
}

abbrev pub user_wallet : Wallet ℤ
user_wallet = record {
  id = 9;
  user_id = some 5;
  fleet_id = none;
  balance = some (pos 500);
  type = some WalletType.user;
  client_id = 1;
}

abbrev pub standard_price : Tariff ℤ
standard_price = record {
  id = 8;
  vendor_id = some 4;
  charger_id = 3;
  user_type_id = none;
  price = some (pos 10);
  gst = some (pos 0);
}

abbrev pub qr_payment : PaymentTransaction ℤ
qr_payment = record {
  id = 70;
  order_id = none;
  payment_id = some "pay_1";
  user_id = none;
  fleet_id = none;
  coupon_id = none;
  amount = some (pos 200);
  status = PaymentStatus.success;
  client_id = 1;
  payment_type = some "upi";
  currency = some "INR";
  description = some "QRPAYMENT";
  type = some PaymentActorType.qr_user;
  transaction_type = some TransactionDirection.credit;
  utr = none;
  hook = some "brand";
  provider = PaymentProvider.razorpay;
  payment_purpose = PaymentPurpose.pay_and_charge;
  provider_qr_id = some "qr_1";
  paid_user = none;
  paid_user_email = none;
  refund_id = none;
  refund_amount = none;
}

abbrev pub razorpay_config : PaymentConfig
razorpay_config = record { client_id = 1; provider = some "razorpay" }

-- Transaction 1_000_011 is the user's, 1_000_012 the one paid by QR.
abbrev pub site : Database ℤ
site = record {
  device_transactions = running_transaction 11 5 ∷ running_transaction 12 5 ∷ [];
  charging_sessions =
      started_session 21 11 ChannelSource.android ∷ started_session 22 12 ChannelSource.qrpay ∷ [];
  chargers = charger ∷ [];
  connectors = [];
  wallets = user_wallet ∷ [];
  wallet_transactions = [];
  payment_transactions = qr_payment ∷ [];
  payment_configs = razorpay_config ∷ [];
  tariffs = standard_price ∷ [];
  roaming_tariffs = [];
  user_types = [];
  vendor_users = [];
  vehicles = [];
  rfid_tags = [];
  users = [];
  fleet_user_details = [];
  ocpi_emsps = [];
  client_details = [];
  prefix_configs = [];
  features = [];
  feature_permissions = [];
  fleet_driver_vehicles = [];
  transaction_details = [];
  coupons = [];
  pay_charge_qr_codes = [];
  vendors = [];
  cpo_settlements = [];
  client_amcs = [];
  client_supports = [];
  charger_specifications = [];
  charger_configurations = [];
  ocpi_cpos = [];
  ocpi_cpo_versions = [];
  ocpi_cpo_version_endpoints = [];
}
