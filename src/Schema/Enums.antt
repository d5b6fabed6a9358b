-- ===== src/Schema/Enums.antt =====
-- database/src/enums.ts: the values of the enum columns.
use nest_js_project.Prelude.{Bool, true, false, Option, some}

pub data ChannelSource : Type 0 where
  web ios android cms server rfid vid charger fm ocpi roaming ocpp qrpay : ChannelSource

pub data SessionStatus : Type 0 where
  initiated started completed not_started failed : SessionStatus

pub data ChargerStatus : Type 0 where
  active inactive : ChargerStatus

pub data ConnectorStatus : Type 0 where
  available preparing charging suspended_evse suspended_ev finishing reserved : ConnectorStatus
  unavailable faulted engaged : ConnectorStatus

pub data WalletType : Type 0 where
  vendor user fleet : WalletType

pub data WalletTxDirection : Type 0 where
  credit debit : WalletTxDirection

pub data WalletTxPurpose : Type 0 where
  charging credits cashback : WalletTxPurpose

pub data WalletSourceType : Type 0 where
  credits wallet coupon : WalletSourceType

pub data PaymentActorType : Type 0 where
  user fleet qr_user : PaymentActorType

pub data PaymentStatus : Type 0 where
  pending success failed : PaymentStatus

pub data TransactionDirection : Type 0 where
  credit debit : TransactionDirection

pub data PaymentProvider : Type 0 where
  razorpay phone_pe zoho : PaymentProvider

pub data PaymentPurpose : Type 0 where
  wallet_recharge pay_and_charge : PaymentPurpose

abbrev pub is_user_wallet : Option WalletType → Bool
is_user_wallet (some WalletType.user) = true
is_user_wallet _ = false

abbrev pub is_fleet_wallet : Option WalletType → Bool
is_fleet_wallet (some WalletType.fleet) = true
is_fleet_wallet _ = false

abbrev pub is_initiated : Option SessionStatus → Bool
is_initiated (some SessionStatus.initiated) = true
is_initiated _ = false

abbrev pub is_success : PaymentStatus → Bool
is_success PaymentStatus.success = true
is_success _ = false
