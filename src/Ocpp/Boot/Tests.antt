-- ===== src/Ocpp/Boot/Tests.antt =====
-- The sample charger boots.
use nest_js_project.Prelude.{◌≡◌, refl, none, some, [], ◌∷◌}
use nest_js_project.Prelude.Int.{ℤ}
use nest_js_project.Schema.{ChargerSpecification, Database}
use nest_js_project.Samples.{site}
use nest_js_project.Ocpp.Boot.{
  BootMessage, BootRuntime, has_updates, set_updates, record_specifications, handle,
}
use nest_js_project.Ocpp.Boot.Again.{boot_twice}

abbrev runtime : BootRuntime
runtime = record { now = 5000; new_specification = 51; parse_int = λ s. some 30 }

abbrev message : BootMessage
message = record {
  uuid = "u";
  specifications = record {
    charge_point_vendor = some "Maker";
    charge_point_model = some "M2";
    charge_box_serial_number = none;
    firmware_version = some "";
    charge_point_serial_number = none;
    iccid = none;
    imsi = none;
    meter_type = none;
    meter_serial_number = none;
  };
}

abbrev known : ChargerSpecification
known = record {
  id = 50;
  charger_id = some "CP1";
  charger_ref = 3;
  vendor_name = some "Maker";
  model = some "M1";
  serial = some "S1";
  firmware_version = some "1.0";
  cp_serial = none;
  iccid = none;
  imsi = none;
  meter_type = none;
  meter_serial_number = none;
}

abbrev booted_before : Database ℤ
booted_before = record site { charger_specifications = known ∷ [] }

-- The model is new; an empty firmware version is not taken over.
update_test :
    (handle runtime booted_before message "CP1").0.charger_specifications
    ≡ record known { model = some "M2" } ∷ []
unfolding handle record_specifications has_updates set_updates
update_test = refl

boot_twice_example :
    (handle runtime (handle runtime booted_before message "CP1").0 message "CP1").0
    ≡ (handle runtime booted_before message "CP1").0
boot_twice_example = boot_twice runtime runtime booted_before message "CP1"
