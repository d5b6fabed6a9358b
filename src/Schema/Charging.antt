-- ===== src/Schema/Charging.antt =====
-- The rows of devicetransactions, chargingsessions, chargers, connectors, rfidtags, vehicles,
-- chargerspecifications and chargerconfigurations.
use nest_js_project.Prelude.{ℕ, Bool, Option, String}
use nest_js_project.Schema.Enums.{ChannelSource, SessionStatus, ChargerStatus, ConnectorStatus}

-- `status` is 0 while the transaction runs and 1 once it is settled.
pub record DeviceTransaction (W : Type 0) : Type 0 where
  pub id : ℕ
  pub transaction_id : Option ℕ
  pub mac_id : Option String
  pub vehicle_id : Option ℕ
  pub charger_ref : Option ℕ
  pub charger_id : Option String
  pub connector_id : Option String
  pub user_id : Option ℕ
  pub start_date : Option ℕ
  pub stop_date : Option ℕ
  pub chargin_duration : Option W
  pub start_meter_value : Option W
  pub stop_meter_value : Option W
  pub total_wh : Option W
  pub status : Option ℕ
  pub reason : Option String
  pub amount : Option W
  pub gst : Option W
  pub price : Option W
  pub max_energy : Option W
  pub max_amount : Option W
  pub start_soc : Option W
  pub stop_soc : Option W
  pub is_dual_mode : Option Bool
  pub meter_value_store : Option W
  pub platform : Option ChannelSource
  pub stop_from : Option ChannelSource
  pub calc_tax_percent : Option W
  pub calc_price : Option W
  pub tariff_name : Option String
  pub fleet_id : Option ℕ
  pub start_driver_id : Option ℕ
  pub rfid_tag : Option String
  pub emsp_id : Option ℕ
  pub is_abnormal_stop : Bool
  pub client_id : ℕ
  pub initiated_client_id : Option ℕ
  pub payment_transaction_id : Option ℕ
  pub is_over_consumed_qr : Option Bool
  pub pending_recovery_amount_qr : Option W
  pub created_at : Option ℕ  -- `none` for a timestamp that does not parse

pub record ChargingSession (W : Type 0) : Type 0 where
  pub id : ℕ
  pub transaction_id : Option ℕ
  pub session_id : Option String
  pub user_id : Option ℕ
  pub max_energy : Option W
  pub max_amount : Option W
  pub connector_id : Option ℕ
  pub charger_id : Option String
  pub reason : Option String
  pub status : Option SessionStatus
  pub platform : Option ChannelSource
  pub stop_from : Option ChannelSource
  pub charger_ref : Option ℕ
  pub calc_tax_percent : Option W
  pub calc_price : Option W
  pub tariff_name : Option String
  pub fleet_id : Option ℕ
  pub start_driver_id : Option ℕ
  pub rfid_tag : Option String
  pub emsp_id : Option ℕ
  pub msp_res_url : Option String
  pub client_id : ℕ
  pub initiated_client_id : Option ℕ
  pub max_charging_percentage : Option W
  pub payment_transaction_id : Option ℕ
  pub remote_start_attempts : Option ℕ
  pub next_action_at : Option ℕ
  pub failure_reason : Option String
  pub created_at : ℕ

pub record Charger : Type 0 where
  pub id : ℕ
  pub charger_id : String
  pub vendor_id : Option ℕ
  pub station_id : Option ℕ
  pub client_id : ℕ
  pub status : ChargerStatus

pub record Connector : Type 0 where
  pub id : ℕ
  pub connector_id : String
  pub charger_id : ℕ
  pub status : ConnectorStatus
  pub info : Option String

pub record RfidTag (W : Type 0) : Type 0 where
  pub id : ℕ
  pub master_rfid_tag : Option ℕ
  pub rf_id_tag : String
  pub client_id : ℕ
  pub user_id : Option ℕ
  pub fleet_id : Option ℕ
  pub fleet_group_id : Option ℕ
  pub expiry_date : Option ℕ
  pub max_amount : Option W

pub record Vehicle (W : Type 0) : Type 0 where
  pub id : ℕ
  pub vin_number : Option String
  pub auto_charge : Bool
  pub client_id : ℕ
  pub user_id : Option ℕ
  pub fleet_id : Option ℕ
  pub fleet_group_id : Option ℕ
  pub max_amount : Option W

pub record TransactionDetail (W : Type 0) : Type 0 where
  pub charger_id : String
  pub transaction_id : ℕ
  pub transaction_ref : ℕ
  pub temperature : Option W
  pub voltage : Option W
  pub voltage_ev : Option W
  pub battery_percentage : Option W
  pub current_import : Option W
  pub current_import_ev : Option W
  pub current_offered : Option W
  pub power_offered : Option W
  pub meter_value : Option W

-- What a charger says of itself when it boots.
pub record ChargerSpecification : Type 0 where
  pub id : ℕ
  pub charger_id : Option String
  pub charger_ref : ℕ
  pub vendor_name : Option String
  pub model : Option String
  pub serial : Option String
  pub firmware_version : Option String
  pub cp_serial : Option String
  pub iccid : Option String
  pub imsi : Option String
  pub meter_type : Option String
  pub meter_serial_number : Option String

pub record ChargerConfiguration : Type 0 where
  pub id : ℕ
  pub charger_id : Option String
  pub config_name : Option String
  pub config_value : Option String
  pub config_description : Option String
  pub accessibility : Option String
  pub charger_ref : ℕ
