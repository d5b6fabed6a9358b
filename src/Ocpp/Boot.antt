-- ===== src/Ocpp/Boot.antt =====
-- apps/ocpp-gateway/src/v16/handlers/boot-notification.handler.ts: a charger that boots becomes active,
-- and what it says of itself is kept. Failures of the database are not represented.
pub mod Again
mod Tests
use nest_js_project.Prelude.{
  ℕ, Bool, true, false, not, ◌&&◌, ◌||◌, Option, none, some, List, [], ◌∷◌, ◌++◌, String,
  if◌then◌else◌, ◌===◌, ◌==◌, find_one, update_where, holds_text, filled,
}
use nest_js_project.Schema.{
  Charger, ChargerStatus, ChargerSpecification, ChargerConfiguration, Database,
}

-- The payload `message[3] || {}`, by the names of the protocol.
pub record Specifications : Type 0 where
  pub charge_point_vendor : Option String
  pub charge_point_model : Option String
  pub charge_box_serial_number : Option String
  pub firmware_version : Option String
  pub charge_point_serial_number : Option String
  pub iccid : Option String
  pub imsi : Option String
  pub meter_type : Option String
  pub meter_serial_number : Option String

pub record BootMessage : Type 0 where
  pub uuid : String
  pub specifications : Specifications

pub record BootRuntime : Type 0 where
  pub now : ℕ
  pub new_specification : ℕ  -- the key of the next row of chargerspecifications
  pub parse_int : String → Option ℕ  -- `parseInt(s, 10)`, and nothing for NaN

pub data BootStatus : Type 0 where
  accepted rejected : BootStatus

pub record BootReply : Type 0 where
  pub uuid : String
  pub status : BootStatus
  pub current_time : ℕ
  pub interval : Option ℕ

-- `specifications[key] && specifications[key] !== existingSpec[key]`.
abbrev pub is_changed : Option String → Option String → Bool
is_changed none old = false
is_changed (some new) none = filled (some new)
is_changed (some new) (some old) = filled (some new) && not (new === old)

abbrev pub updated : Option String → Option String → Option String → Option String
updated new old current = if is_changed new old then new else current

-- `Object.keys(updates).length > 0`.
unfoldable pub has_updates : Specifications → ChargerSpecification → Bool
has_updates new old =
    is_changed new.charge_point_vendor old.vendor_name
    || is_changed new.charge_point_model old.model
    || is_changed new.charge_box_serial_number old.serial
    || is_changed new.firmware_version old.firmware_version
    || is_changed new.charge_point_serial_number old.cp_serial
    || is_changed new.iccid old.iccid
    || is_changed new.imsi old.imsi
    || is_changed new.meter_type old.meter_type
    || is_changed new.meter_serial_number old.meter_serial_number

unfoldable pub set_updates :
    Specifications → ChargerSpecification → ChargerSpecification → ChargerSpecification
set_updates new old row = record row {
  vendor_name = updated new.charge_point_vendor old.vendor_name row.vendor_name;
  model = updated new.charge_point_model old.model row.model;
  serial = updated new.charge_box_serial_number old.serial row.serial;
  firmware_version = updated new.firmware_version old.firmware_version row.firmware_version;
  cp_serial = updated new.charge_point_serial_number old.cp_serial row.cp_serial;
  iccid = updated new.iccid old.iccid row.iccid;
  imsi = updated new.imsi old.imsi row.imsi;
  meter_type = updated new.meter_type old.meter_type row.meter_type;
  meter_serial_number =
      updated new.meter_serial_number old.meter_serial_number row.meter_serial_number;
}

unfoldable pub new_specification_row :
    BootRuntime → Specifications → String → ℕ → ChargerSpecification
new_specification_row rt new charger_id charger_ref = record {
  id = rt.new_specification;
  charger_id = some charger_id;
  charger_ref = charger_ref;
  vendor_name = new.charge_point_vendor;
  model = new.charge_point_model;
  serial = new.charge_box_serial_number;
  firmware_version = new.firmware_version;
  cp_serial = new.charge_point_serial_number;
  iccid = new.iccid;
  imsi = new.imsi;
  meter_type = new.meter_type;
  meter_serial_number = new.meter_serial_number;
}

abbrev pub on_specification :
    BootRuntime
    → Specifications
    → String
    → ℕ
    → List ChargerSpecification
    → Option ChargerSpecification
    → List ChargerSpecification
on_specification rt new charger_id charger_ref rows none =
    rows ++ new_specification_row rt new charger_id charger_ref ∷ []
on_specification rt new charger_id charger_ref rows (some old) =
    if has_updates new old
    then update_where (λ r. r.id == old.id) (set_updates new old) rows
    else rows

unfoldable pub record_specifications :
    BootRuntime
    → Specifications
    → String
    → ℕ
    → List ChargerSpecification
    → List ChargerSpecification
record_specifications rt new charger_id charger_ref rows =
    on_specification rt new charger_id charger_ref rows
      (find_one (λ r. r.charger_ref == charger_ref) rows)

unfoldable pub activate : ℕ → List Charger → List Charger
activate id chargers =
    update_where (λ c. c.id == id) (λ c. record c { status = ChargerStatus.active }) chargers

abbrev interval_of : BootRuntime → Option ChargerConfiguration → Option ℕ
interval_of rt none = some 60
interval_of rt (some config) = elim config.config_value [
  | none ↦ some 60
  | some value ↦ if value === "" then some 60 else rt.parse_int value
]

unfoldable pub heartbeat_interval : BootRuntime → List ChargerConfiguration → ℕ → Option ℕ
heartbeat_interval rt configurations charger_ref = interval_of rt (
    find_one
      (λ c. c.charger_ref == charger_ref && holds_text c.config_name (some "HeartbeatInterval"))
      configurations)

module _ {W : Type 0} where
  abbrev pub booted : BootRuntime → Database W → BootMessage → String → Charger → Database W
  booted rt db msg charger_id charger = record db {
    chargers = activate charger.id db.chargers;
    charger_specifications =
        record_specifications rt msg.specifications charger_id charger.id db.charger_specifications;
  }

  abbrev pub boot_charger :
      BootRuntime → Database W → BootMessage → String → Option Charger → Database W × BootReply
  boot_charger rt db msg charger_id none = (
    db,
    record {
      uuid = msg.uuid;
      status = BootStatus.rejected;
      current_time = rt.now;
      interval = none;
    },
  )
  boot_charger rt db msg charger_id (some charger) = (
    booted rt db msg charger_id charger,
    record {
      uuid = msg.uuid;
      status = BootStatus.accepted;
      current_time = rt.now;
      interval = heartbeat_interval rt db.charger_configurations charger.id;
    },
  )

  unfoldable pub handle : BootRuntime → Database W → BootMessage → String → Database W × BootReply
  handle rt db msg charger_id =
      boot_charger rt db msg charger_id (find_one (λ c. c.charger_id === charger_id) db.chargers)
