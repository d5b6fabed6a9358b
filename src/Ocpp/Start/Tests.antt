-- ===== src/Ocpp/Start/Tests.antt =====
-- A start at the sample site by a tag that it knows, and the theorem about starts there.
use nest_js_project.Prelude.{◌≡◌, none, some, [], ◌∷◌}
use nest_js_project.Prelude.Int.{ℤ, pos}
use nest_js_project.Schema.{RfidTag, Database}
use nest_js_project.Whole.{whole_number}
use nest_js_project.Samples.{clock, site}
use nest_js_project.Ocpp.Start.Frame.{StartMessage, invalid}
use nest_js_project.Ocpp.Start.{handle}
use nest_js_project.Ocpp.Start.Refused.{start_never_accepted}

abbrev tag : RfidTag ℤ
tag = record {
  id = 40;
  master_rfid_tag = none;
  rf_id_tag = "TAG1";
  client_id = 1;
  user_id = some 5;
  fleet_id = none;
  fleet_group_id = none;
  expiry_date = none;
  max_amount = none;
}

abbrev garage : Database ℤ
garage = record site { device_transactions = []; charging_sessions = []; rfid_tags = tag ∷ [] }

abbrev start_frame : StartMessage ℤ
start_frame = record {
  uuid = "u";
  connector_id = 1;
  id_tag = some "TAG1";
  meter_start = some (pos 100);
}

start_never_accepted_example :
    let (after, calls, reply) = handle clock garage start_frame "CP1" in
    (after ≡ garage) × (calls ≡ []) × (reply.status ≡ invalid) × (reply.transaction_id ≡ none)
start_never_accepted_example = start_never_accepted clock garage start_frame "CP1"
