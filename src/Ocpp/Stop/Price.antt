-- ===== src/Ocpp/Stop/Price.antt =====
-- Which price, wallet and user a stopped session is settled with: the branches on `platform` of
-- `handle` in v16/handlers/stop-transaction.handler.ts.
use nest_js_project.Prelude.{
  ℕ, Bool, ◌&&◌, Option, none, some, String, find_one, holds, holds_text, is_null, map_option,
}
use nest_js_project.Schema.{
  ChannelSource, is_user_wallet, is_fleet_wallet, DeviceTransaction, ChargingSession, Charger,
  Wallet, Tariff, RoamingTariff, UserType, User, FleetUserDetail, Vehicle, Database,
}
use nest_js_project.Ocpp.Runtime.{Runtime}
use nest_js_project.Ocpp.Raw.{ChargerKeys, undefined, own_keys}
use nest_js_project.Ocpp.Tariff.{
  user_type_of_user, user_type_of_group, standard_tariff, required_tariff, tariff_user_type,
}

-- The columns of a price that the bill reads.
pub record Price (W : Type 0) : Type 0 where
  pub id : ℕ
  pub price : Option W
  pub gst : Option W

-- The row that `user` holds: a user's, or the fleet's, each of `getRawOne()` with keys such as
-- `u_clientId`, so that the two properties that the handler reads are undefined.
pub record Actor : Type 0 where
  pub client_id : Option ℕ
  pub fcm_token : Option String

pub record Settlement (W : Type 0) : Type 0 where
  pub required_price : Option (Price W)
  pub tariff_type : Option UserType
  pub user : Option Actor
  pub wallet : Option (Wallet W)

abbrev charger_key : Option ChargerKeys → Option ℕ
charger_key none = none
charger_key (some c) = c.id

abbrev charger_client : Option ChargerKeys → Option ℕ
charger_client none = none
charger_client (some c) = c.client_id

abbrev pub actor_of_user : Option User → Option Actor
actor_of_user none = none
actor_of_user (some u) = some (record { client_id = undefined; fcm_token = undefined })

abbrev pub actor_of_fleet : Option FleetUserDetail → Option Actor
actor_of_fleet none = none
actor_of_fleet (some f) = some (record { client_id = undefined; fcm_token = undefined })

module _ {W : Type 0} where
  abbrev pub of_tariff : Option (Tariff W) → Option (Price W)
  of_tariff none = none
  of_tariff (some t) = some (record { id = t.id; price = t.price; gst = t.gst })

  abbrev pub or_standard :
      Database W → Option ChargerKeys → Option (RoamingTariff W) → Option (Price W)
  or_standard db charger (some rt) = some (record { id = rt.id; price = rt.price; gst = rt.gst })
  or_standard db (some charger) none = of_tariff (standard_tariff db charger)
  or_standard db none none = none

  abbrev pub same_charger : Option ChargerKeys → RoamingTariff W → Bool
  same_charger charger r =
      holds (some r.charger_id) (charger_key charger)
      && holds (some r.client_id) (charger_client charger)

  unfoldable pub ocpi_price : Database W → Option ChargerKeys → ChargingSession W → Option (Price W)
  ocpi_price db charger session =
      or_standard db charger (
        find_one (λ r. same_charger charger r && holds r.emsp_id session.emsp_id)
          db.roaming_tariffs)

  unfoldable pub qr_price : Database W → Option ChargerKeys → Option (Price W)
  qr_price db charger = or_standard db charger (
      find_one
        (λ r.
          same_charger charger r
          && holds_text r.tariff_type (some "QRPAY")
          && is_null r.import_client_id
          && is_null r.emsp_id)
        db.roaming_tariffs)

  unfoldable pub roaming_price :
      Database W → Option ChargerKeys → ChargingSession W → Option (Price W)
  roaming_price db charger session = or_standard db charger (
      find_one (λ r. same_charger charger r && holds r.import_client_id session.initiated_client_id)
        db.roaming_tariffs)

  -- The wallet of the transaction's user, or else of its fleet.
  unfoldable pub wallet_of : Database W → Option ℕ → Option ℕ → Option (Wallet W)
  wallet_of db (some user_id) fleet_id =
      find_one (λ w. holds w.user_id (some user_id) && is_user_wallet w.type) db.wallets
  wallet_of db none fleet_id =
      find_one (λ w. holds w.fleet_id fleet_id && is_fleet_wallet w.type) db.wallets

  unfoldable pub user_actor : Database W → Option ℕ → Option Actor
  user_actor db user_id = actor_of_user (find_one (λ u. holds (some u.id) user_id) db.users)

  unfoldable pub fleet_actor : Database W → Option ℕ → Option Actor
  fleet_actor db fleet_id =
      actor_of_fleet (find_one (λ f. holds (some f.id) fleet_id) db.fleet_user_details)

  -- `vehicle.fleetGroupId` of `select('v.fleetGroupId')`, whose key is `v_fleetGroupId`.
  abbrev pub raw_fleet_group_id : Vehicle W → Option ℕ
  raw_fleet_group_id v = undefined

  -- The query for the group's user is made only where `vehicle.fleetGroupId` is there; with NULL it
  -- finds nobody.
  abbrev type_of_group : Runtime → Database W → Charger → Option (Vehicle W) → Option UserType
  type_of_group rt db charger none = none
  type_of_group rt db charger (some v) =
      user_type_of_group rt db (own_keys charger) (raw_fleet_group_id v)

  -- The type that the charger's vendor gave the user, or the group of the fleet's vehicle.
  unfoldable pub stop_user_type :
      Runtime → Database W → Charger → Option ℕ → Option ℕ → Option ℕ → Option UserType
  unfolding user_type_of_user user_type_of_group
  stop_user_type rt db charger (some user_id) fleet_id vehicle_id =
      user_type_of_user rt db (own_keys charger) (some user_id)
  stop_user_type rt db charger none (some fleet_id) vehicle_id =
      type_of_group rt db charger (find_one (λ v. holds (some v.id) vehicle_id) db.vehicles)
  stop_user_type rt db charger none none vehicle_id = none

  abbrev own_tariff :
      Runtime → Database W → DeviceTransaction W → Option Charger → Option (Tariff W)
  own_tariff rt db dt none = none
  own_tariff rt db dt (some charger) =
      required_tariff db (own_keys charger)
        (stop_user_type rt db charger dt.user_id dt.fleet_id dt.vehicle_id)

  abbrev pub own_actor : Database W → DeviceTransaction W → Option ℕ → Option Actor
  own_actor db dt (some user_id) = user_actor db (some user_id)
  own_actor db dt none = fleet_actor db dt.fleet_id

  abbrev pub roaming_actor : Database W → Option ℕ → Option Actor
  roaming_actor db (some user_id) = user_actor db (some user_id)
  roaming_actor db none = none

  -- The `else` branch: the gateway's own users and fleets.
  unfoldable pub own_settlement :
      Runtime → Database W → DeviceTransaction W → Option Charger → Settlement W
  unfolding wallet_of stop_user_type required_tariff user_actor fleet_actor
  own_settlement rt db dt charger =
      let tariff = own_tariff rt db dt charger in
      record {
        required_price = of_tariff tariff;
        tariff_type = tariff_user_type db tariff;
        user = own_actor db dt dt.user_id;
        wallet = wallet_of db dt.user_id dt.fleet_id;
      }

  unfoldable pub settlement :
      Runtime
      → Database W
      → DeviceTransaction W
      → ChargingSession W
      → Option Charger
      → Option ChannelSource
      → Settlement W
  unfolding own_settlement ocpi_price qr_price roaming_price
  settlement rt db dt session charger (some ChannelSource.ocpi) = record {
    required_price = ocpi_price db (map_option own_keys charger) session;
    tariff_type = none;
    user = none;
    wallet = none;
  }
  settlement rt db dt session charger (some ChannelSource.qrpay) = record {
    required_price = qr_price db (map_option own_keys charger);
    tariff_type = none;
    user = none;
    wallet = none;
  }
  settlement rt db dt session charger (some ChannelSource.roaming) = record {
    required_price = roaming_price db (map_option own_keys charger) session;
    tariff_type = none;
    user = roaming_actor db dt.user_id;
    wallet = wallet_of db dt.user_id dt.fleet_id;
  }
  settlement rt db dt session charger _ = own_settlement rt db dt charger
