-- ===== src/Schema.antt =====
-- The tables of the database that the modelled parts read and write: the entities under
-- modules/*/src/entities, with the enums of database/src/enums.ts. Keys are positive
-- auto-increment numbers, so a nullable key is truthy exactly when it is there; an instant is its
-- number of milliseconds.
mod Enums
mod Charging
mod Billing
mod Access
mod Contracts
pub use Enums.*
pub use Charging.*
pub use Billing.*
pub use Access.*
pub use Contracts.*
use nest_js_project.Prelude.{List}

pub record Database (W : Type 0) : Type 0 where
  pub device_transactions : List (DeviceTransaction W)
  pub charging_sessions : List (ChargingSession W)
  pub chargers : List Charger
  pub connectors : List Connector
  pub wallets : List (Wallet W)
  pub wallet_transactions : List (WalletTransaction W)
  pub payment_transactions : List (PaymentTransaction W)
  pub payment_configs : List PaymentConfig
  pub tariffs : List (Tariff W)
  pub roaming_tariffs : List (RoamingTariff W)
  pub user_types : List UserType
  pub vendor_users : List VendorUser
  pub vehicles : List (Vehicle W)
  pub rfid_tags : List (RfidTag W)
  pub users : List User
  pub fleet_user_details : List FleetUserDetail
  pub ocpi_emsps : List OcpiEmsp
  pub client_details : List (ClientDetail W)
  pub prefix_configs : List PrefixConfig
  pub features : List Feature
  pub feature_permissions : List FeaturePermission
  pub fleet_driver_vehicles : List FleetDriverVehicle
  pub transaction_details : List (TransactionDetail W)
  pub coupons : List (Coupon W)
  pub pay_charge_qr_codes : List PayChargeQrCode
  pub vendors : List Vendor
  pub cpo_settlements : List (CpoSettlement W)
  pub client_amcs : List (ClientAmc W)
  pub client_supports : List (ClientSupport W)
  pub charger_specifications : List ChargerSpecification
  pub charger_configurations : List ChargerConfiguration
  pub ocpi_cpos : List OcpiCpo
  pub ocpi_cpo_versions : List OcpiCpoVersion
  pub ocpi_cpo_version_endpoints : List OcpiCpoVersionEndpoint
