-- ===== src/Schema/Billing.antt =====
-- The rows of wallets, wallettransactions, paymenttransactions, coupons, paychargeqrcodes,
-- paymentconfigs, tariffs and roamingtariffs.
use nest_js_project.Prelude.{ℕ, Option, String}
use nest_js_project.Schema.Enums.{
  WalletType, WalletTxDirection, WalletTxPurpose, WalletSourceType, PaymentActorType, PaymentStatus,
  TransactionDirection, PaymentProvider, PaymentPurpose,
}

pub record Wallet (W : Type 0) : Type 0 where
  pub id : ℕ
  pub user_id : Option ℕ
  pub fleet_id : Option ℕ
  pub balance : Option W
  pub type : Option WalletType
  pub client_id : ℕ

pub record WalletTransaction (W : Type 0) : Type 0 where
  pub ref_no : String
  pub wallet_id : ℕ
  pub amount : Option W
  pub charger_id : Option ℕ
  pub type : WalletTxDirection
  pub remaining_balance : W
  pub user_type : WalletType
  pub source_type : WalletSourceType
  pub transaction_purpose : WalletTxPurpose
  pub transaction_ref : Option ℕ
  pub payment_transaction_id : Option ℕ
  pub client_id : ℕ

pub record PaymentTransaction (W : Type 0) : Type 0 where
  pub id : ℕ
  pub order_id : Option String
  pub payment_id : Option String
  pub user_id : Option ℕ
  pub fleet_id : Option ℕ
  pub coupon_id : Option ℕ
  pub amount : Option W
  pub status : PaymentStatus
  pub client_id : ℕ
  pub payment_type : Option String
  pub currency : Option String
  pub description : Option String
  pub type : Option PaymentActorType
  pub transaction_type : Option TransactionDirection
  pub utr : Option String
  pub hook : Option String
  pub provider : PaymentProvider
  pub payment_purpose : PaymentPurpose
  pub provider_qr_id : Option String
  pub paid_user : Option String
  pub paid_user_email : Option String
  pub refund_id : Option String
  pub refund_amount : Option W

pub record Coupon (W : Type 0) : Type 0 where
  pub id : ℕ
  pub start_date : Option ℕ
  pub end_date : Option ℕ
  pub amount : Option W
  pub cashback_percent : Option W
  pub max_cashback_amount : Option W

pub record PayChargeQrCode : Type 0 where
  pub qr_provider_id : Option String
  pub connector_id : ℕ

pub record Tariff (W : Type 0) : Type 0 where
  pub id : ℕ
  pub vendor_id : Option ℕ
  pub charger_id : ℕ
  pub user_type_id : Option ℕ
  pub price : Option W
  pub gst : Option W

pub record RoamingTariff (W : Type 0) : Type 0 where
  pub id : ℕ
  pub charger_id : ℕ
  pub client_id : ℕ
  pub tariff_type : Option String
  pub import_client_id : Option ℕ
  pub emsp_id : Option ℕ
  pub price : Option W
  pub gst : Option W

pub record PaymentConfig : Type 0 where
  pub client_id : ℕ
  pub provider : Option String
