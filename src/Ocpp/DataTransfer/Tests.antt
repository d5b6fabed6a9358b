-- ===== src/Ocpp/DataTransfer/Tests.antt =====
-- The sample charger says which vehicle is plugged in.
use nest_js_project.Prelude.{◌≡◌, refl, none, some, [], ◌∷◌, true, find_all}
use nest_js_project.Prelude.Int.{ℤ}
use nest_js_project.Prelude.Text.{second_part}
use nest_js_project.Schema.{ChannelSource, DeviceTransaction, Vehicle, Database}
use nest_js_project.Samples.{site, clock, running_transaction, charger}
use nest_js_project.Ocpp.DataTransfer.Mismatch.{fleet_vehicle_is_stopped}
use nest_js_project.Ocpp.DataTransfer.{
  assigned, stopped_at, is_running, TransferMessage, remote_stop, accepted, rejected, mac_id_of,
  latest, start_driver, assign, is_vehicle_mismatch, mark_transaction, handle,
}

abbrev fleet_transaction : DeviceTransaction ℤ
fleet_transaction = record (running_transaction 11 5) {
  platform = some ChannelSource.rfid;
  fleet_id = some 9;
}

abbrev charging : Database ℤ
charging = record site { charging_sessions = []; device_transactions = fleet_transaction ∷ [] }

abbrev message : TransferMessage
message = record {
  uuid = "u";
  message_id = some "VehicleMac";
  mac = some "VID:AB12";
  transaction_id = none;
}

-- No vehicle has the address: a transaction of a fleet is stopped, and the call has no number where
-- the payload had none.
mismatch_test : handle clock (λ s. s) charging message "CP1" ≡ (
  record charging {
    device_transactions =
        record fleet_transaction {
          mac_id = some "AB12";
          vehicle_id = none;
          start_driver_id = none;
          stop_from = some ChannelSource.server;
          reason = some "Vehicle Mismatch";
        }
        ∷ [];
  },
  remote_stop none ∷ [],
  accepted,
)
unfolding handle mac_id_of second_part latest start_driver assign is_vehicle_mismatch
    mark_transaction
mismatch_test = refl

-- A charger on which nothing runs is refused.
refused_test :
    handle clock (λ s. s) (record charging { device_transactions = [] }) message "CP1"
    ≡ (record charging { device_transactions = [] }, [], rejected)
unfolding handle mac_id_of second_part latest
refused_test = refl

-- A vehicle of the fleet's own.
abbrev own_vehicle : Vehicle ℤ
own_vehicle = record {
  id = 40;
  vin_number = some "AB12";
  auto_charge = true;
  client_id = 1;
  user_id = none;
  fleet_id = some 9;
  fleet_group_id = none;
  max_amount = none;
}

abbrev at_home : Database ℤ
at_home = record charging { vehicles = own_vehicle ∷ [] }

says_address : mac_id_of (λ s. s) message ≡ some "AB12"
unfolding mac_id_of second_part
says_address = refl

runs_there :
    latest (find_all (is_running "CP1" message) at_home.device_transactions)
    ≡ some fleet_transaction
unfolding latest
runs_there = refl

fleet_vehicle_is_stopped_example :
    handle clock (λ s. s) at_home message "CP1"
    ≡ (stopped_at (assigned at_home "AB12" none none 11) 11, remote_stop none ∷ [], accepted)
fleet_vehicle_is_stopped_example =
    fleet_vehicle_is_stopped clock (λ s. s) at_home message "CP1" "AB12" charger fleet_transaction
      says_address refl refl runs_there refl refl
