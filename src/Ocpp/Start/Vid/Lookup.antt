-- ===== src/Ocpp/Start/Vid/Lookup.antt =====
-- What `handleVidFlow` of v16/handlers/start-transaction.handler.ts looks up: the vehicle, the
-- vendor's feature, the driver, the type of user and the tag.
use nest_js_project.Prelude.{
  ℕ, Bool, false, ◌&&◌, Option, none, some, String, ◌==◌, leb, find_one, holds, holds_text, is_some,
}
use nest_js_project.Prelude.Text.{leb_text}
use nest_js_project.Schema.{RfidTag, Vehicle, UserType, Feature, FleetDriverVehicle, Database}
use nest_js_project.Ocpp.Runtime.{Runtime}
use nest_js_project.Ocpp.Tariff.{user_type_of_user, user_type_of_group}
use nest_js_project.Ocpp.Raw.{ChargerKeys}
use nest_js_project.Ocpp.Start.Frame.{TagInfo, tag_of}

abbrev text_before : Option String → String → Bool
text_before none t = false
text_before (some s) t = leb_text s t

abbrev text_after : Option String → String → Bool
text_after none t = false
text_after (some s) t = leb_text t s

abbrev date_before : Option ℕ → ℕ → Bool
date_before none d = false
date_before (some s) d = leb s d

abbrev pub assigned_now : Runtime → ℕ → FleetDriverVehicle → Bool
assigned_now rt vehicle_id d =
    d.vehicle_id == vehicle_id
    && holds_text d.status (some "Assigned")
    && date_before d.start_date rt.kolkata_date
    && text_before d.start_time rt.kolkata_time
    && text_after d.end_time rt.kolkata_time

abbrev pub driver_of : Option FleetDriverVehicle → Option ℕ
driver_of none = none
driver_of (some d) = some d.fleet_driver_id

module _ {W : Type 0} where
  abbrev pub vehicle_of : Database W → String → Option ℕ → Option (Vehicle W)
  vehicle_of db vid client_id =
      find_one
        (λ v.
          holds_text v.vin_number (some vid) && v.auto_charge && holds (some v.client_id) client_id)
        db.vehicles

  abbrev permitted : Database W → Option ℕ → Feature → Bool
  permitted db vendor_id f =
      holds_text f.name (some "Auto Charge")
      && is_some (
          find_one (λ p. p.feature_id == f.id && holds (some p.vendor_id) vendor_id)
            db.feature_permissions)

  -- The charger's vendor was granted the feature.
  abbrev pub has_auto_charge : Database W → Option ℕ → Bool
  has_auto_charge db vendor_id = is_some (find_one (permitted db vendor_id) db.features)

  abbrev pub vid_driver : Runtime → Database W → Vehicle W → Option ℕ → Option ℕ
  vid_driver rt db vehicle none = none
  vid_driver rt db vehicle (some fleet_id) =
      driver_of (find_one (assigned_now rt vehicle.id) db.fleet_driver_vehicles)

  abbrev pub vid_user_type :
      Runtime → Database W → ChargerKeys → Option ℕ → Option ℕ → Option ℕ → Option UserType
  vid_user_type rt db charger (some fleet_id) (some group_id) user_id =
      user_type_of_group rt db charger (some group_id)
  vid_user_type rt db charger (some fleet_id) none user_id = none
  vid_user_type rt db charger none group_id (some user_id) =
      user_type_of_user rt db charger (some user_id)
  vid_user_type rt db charger none group_id none = none

  abbrev pub payer_tag : Database W → Option ℕ → Option ℕ → Option (RfidTag W)
  payer_tag db (some user_id) fleet_id = find_one (λ t. holds t.user_id (some user_id)) db.rfid_tags
  payer_tag db none fleet_id = find_one (λ t. holds t.fleet_id fleet_id) db.rfid_tags

  abbrev pub tag_info : Option (RfidTag W) → TagInfo
  tag_info none = tag_of none (some "")
  tag_info (some t) = tag_of t.expiry_date (some t.rf_id_tag)
