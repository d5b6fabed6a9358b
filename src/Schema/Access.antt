-- ===== src/Schema/Access.antt =====
-- The rows of vendorusers, User_Types, users, fleetuserdetails, ocpiemsps, clientdetails,
-- prefixconfigs, features, featurepermissions and fleetdrivervehicles.
use nest_js_project.Prelude.{ℕ, Option, String}

pub record UserType : Type 0 where
  pub id : ℕ
  pub name : String
  pub start_date : Option ℕ
  pub end_date : Option ℕ

pub record VendorUser : Type 0 where
  pub vendor_id : ℕ
  pub user_id : Option ℕ
  pub fleet_group_id : Option ℕ
  pub user_type_id : Option ℕ

pub record User : Type 0 where
  pub id : ℕ
  pub client_id : ℕ
  pub fcm_token : Option String

pub record FleetUserDetail : Type 0 where
  pub id : ℕ
  pub client_id : ℕ

pub record OcpiEmsp : Type 0 where
  pub id : ℕ
  pub token_b : Option String

pub record ClientDetail (W : Type 0) : Type 0 where
  pub client_id : ℕ
  pub party_id : Option String
  pub pre_conv_deduction_amount : Option W

pub record PrefixConfig : Type 0 where
  pub client_id : ℕ
  pub session : Option String
  pub wallet : Option String

pub record Feature : Type 0 where
  pub id : ℕ
  pub name : Option String

pub record FeaturePermission : Type 0 where
  pub vendor_id : ℕ
  pub feature_id : ℕ

pub record FleetDriverVehicle : Type 0 where
  pub fleet_driver_id : ℕ
  pub vehicle_id : ℕ
  pub start_date : Option ℕ
  pub start_time : Option String
  pub end_time : Option String
  pub status : Option String
