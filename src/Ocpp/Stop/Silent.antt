-- ===== src/Ocpp/Stop/Silent.antt =====
-- Whom a stop tells: `handle` of v16/handlers/stop-transaction.handler.ts.
use nest_js_project.Prelude.{
  and_false, ℕ, ◌≡◌, refl, Bool-cases, inl, inr, true, false, ◌&&◌, Option, none, some, List, [],
  String, All, All-append, find_one, filled, holds, ◌==◌,
}
use nest_js_project.Schema.{
  ChannelSource, DeviceTransaction, ChargingSession, Charger, Wallet, User, FleetUserDetail,
  OcpiEmsp, ClientDetail, Database,
}
use nest_js_project.Number.{Number, as_number}
use nest_js_project.Ocpp.Runtime.{Runtime}
use nest_js_project.Ocpp.Effect.{Effect, stays_here}
use nest_js_project.Store.{update_transaction}
use nest_js_project.Ocpp.Stop.Reading.{StopMessage, total_wh}
use nest_js_project.Ocpp.Stop.Price.{
  Price, Actor, Settlement, actor_of_user, actor_of_fleet, user_actor, fleet_actor, own_actor,
  roaming_actor, own_settlement, settlement,
}
use nest_js_project.Ocpp.Stop.Payment.{
  Bill, bill_of, record_bill, raw_token_b, raw_party_id, partner_result, party_calls, qr_refunds,
  handle_qr_pay_stop, handle_ocpi_stop, is_from_ocpi,
}
use nest_js_project.Ocpp.Stop.{
  is_ocpi, push_to, notices, tariff_name_of, collect, settle, stopped_of, charger_of, how_settled,
  handle,
}
use nest_js_project.Ocpp.Stop.Cases.{handle_cases, stop_session_cases}

abbrev HasNoToken : Option Actor → Type 0
HasNoToken none = Unit
HasNoToken (some user) = filled user.fcm_token ≡ false

user-HasNoToken : (found : Option User) → HasNoToken (actor_of_user found)
user-HasNoToken none = tt
user-HasNoToken (some u) = refl

fleet-HasNoToken : (found : Option FleetUserDetail) → HasNoToken (actor_of_fleet found)
fleet-HasNoToken none = tt
fleet-HasNoToken (some f) = refl

no_token_b : (found : Option OcpiEmsp) → filled (raw_token_b found) ≡ false
no_token_b none = refl
no_token_b (some e) = refl

module _ {W : Type 0} where
  abbrev pub StaysHere : List (Effect W) → Type 0
  StaysHere calls = All (λ e. stays_here e ≡ true) calls

  own_actor-HasNoToken :
      (db : Database W) (dt : DeviceTransaction W) (user_id : Option ℕ)
      → HasNoToken (own_actor db dt user_id)
  unfolding user_actor fleet_actor
  own_actor-HasNoToken db dt (some user_id) =
      user-HasNoToken (find_one (λ u. holds (some u.id) (some user_id)) db.users)
  own_actor-HasNoToken db dt none =
      fleet-HasNoToken (find_one (λ f. holds (some f.id) dt.fleet_id) db.fleet_user_details)

  roaming_actor-HasNoToken :
      (db : Database W) (user_id : Option ℕ) → HasNoToken (roaming_actor db user_id)
  unfolding user_actor
  roaming_actor-HasNoToken db (some user_id) =
      user-HasNoToken (find_one (λ u. holds (some u.id) (some user_id)) db.users)
  roaming_actor-HasNoToken db none = tt

  settlement-HasNoToken :
      (rt : Runtime) (db : Database W) (dt : DeviceTransaction W) (session : ChargingSession W)
      (charger : Option Charger) (platform : Option ChannelSource)
      → HasNoToken (settlement rt db dt session charger platform).user
  unfolding settlement own_settlement
  settlement-HasNoToken rt db dt session charger none = own_actor-HasNoToken db dt dt.user_id
  settlement-HasNoToken rt db dt session charger (some ChannelSource.ocpi) = tt
  settlement-HasNoToken rt db dt session charger (some ChannelSource.qrpay) = tt
  settlement-HasNoToken rt db dt session charger (some ChannelSource.roaming) =
      roaming_actor-HasNoToken db dt.user_id
  settlement-HasNoToken rt db dt session charger (some _) = own_actor-HasNoToken db dt dt.user_id

module _ {W : Type 0} ⦃num : Number W⦄ where
  push_to-none :
      (user_id : Option ℕ) (user : Option Actor)
      → HasNoToken user
      → push_to {W = W} user_id user ≡ []
  push_to-none none user h = refl
  push_to-none (some id) none h = refl
  push_to-none (some id) (some user) h = rw h refl

  notices-StaysHere :
      (session : ChargingSession W) (dt : DeviceTransaction W) (user : Option Actor)
      → HasNoToken user
      → StaysHere (notices session dt user)
  notices-StaysHere session dt user h = elim (Bool-cases (is_ocpi session.platform)) [
    | inl roaming ↦ rw (roaming, push_to-none dt.user_id user h) tt
    | inr own ↦ rw (own, push_to-none dt.user_id user h) (refl, tt)
  ]

  partner_result-none : (url : Option String) → partner_result {W = W} false url ≡ []
  partner_result-none none = refl
  partner_result-none (some url) = rw (and_false (filled (some url))) refl

  party_calls-none :
      (found : Option (ClientDetail W)) (session : ChargingSession W) (charger : Option Charger)
      (price : Option (Price W)) (bill : Bill W)
      → party_calls (raw_party_id found) session charger price bill ≡ []
  party_calls-none none session charger price bill = refl
  party_calls-none (some d) session charger price bill = refl

  ocpi_stop-none :
      (db : Database W) (session : ChargingSession W) (charger : Option Charger)
      (price : Option (Price W)) (bill : Bill W)
      → handle_ocpi_stop db session charger price bill ≡ []
  unfolding handle_ocpi_stop
  ocpi_stop-none db session charger price bill =
      rw
        (
          no_token_b (find_one (λ e. holds (some e.id) session.emsp_id) db.ocpi_emsps),
          and_false (is_from_ocpi session.stop_from),
          partner_result-none session.msp_res_url,
        )
        (party_calls-none (find_one (λ d. d.client_id == session.client_id) db.client_details)
          session charger price bill)

  qr_stop-StaysHere :
      (session : ChargingSession W) (dt : DeviceTransaction W) (total : W)
      → StaysHere (qr_refunds session dt total)
  unfolding qr_refunds
  qr_stop-StaysHere session dt total =
      let remaining = num.sub (as_number session.max_amount) total in
      elim (Bool-cases
        (num.lt total (as_number session.max_amount) && num.le (num.of_ℕ 1) remaining)) [
          | inl left ↦ rw left (refl, tt)
          | inr nothing ↦ rw nothing tt
        ]

  collect-StaysHere :
      (rt : Runtime) (db : Database W) (session : ChargingSession W) (dt : DeviceTransaction W)
      (charger : Option Charger) (how : Settlement W) (bill : Bill W)
      (platform : Option ChannelSource) (wallet : Option (Wallet W))
      → StaysHere (collect rt db session dt charger how bill platform wallet).1
  unfolding collect handle_qr_pay_stop
  collect-StaysHere rt db session dt charger how bill (some ChannelSource.ocpi) wallet =
      rw (ocpi_stop-none db session charger how.required_price bill) tt
  collect-StaysHere rt db session dt charger how bill (some ChannelSource.qrpay) wallet =
      qr_stop-StaysHere session dt bill.total_amount
  collect-StaysHere rt db session dt charger how bill _ none = tt
  collect-StaysHere rt db session dt charger how bill _ (some wallet) = tt

  settle-StaysHere :
      (rt : Runtime) (db : Database W) (msg : StopMessage W) (dt : DeviceTransaction W)
      (session : ChargingSession W) (charger : Option Charger) (how : Settlement W)
      → HasNoToken how.user
      → StaysHere (settle rt db msg dt session charger how).1
  unfolding settle
  settle-StaysHere rt db msg dt session charger how h =
      let bill = bill_of how.required_price (total_wh msg dt) in
      let billed =
        update_transaction dt.id
          (record_bill bill (tariff_name_of session.platform how.tariff_type)) db in
      All-append (λ e. stays_here e ≡ true)
        (collect rt billed session dt charger how bill session.platform how.wallet).1
        (notices session dt how.user)
        (collect-StaysHere rt billed session dt charger how bill session.platform how.wallet)
        (notices-StaysHere session dt how.user h)

  -- No stop is told to the user's phone or to a roaming partner: every call that it makes is an event
  -- in the session's room or a request for a refund.
  pub stop-StaysHere :
      (rt : Runtime) (db : Database W) (msg : StopMessage W) → StaysHere (handle rt db msg).1
  stop-StaysHere rt db msg =
      handle_cases (λ result. StaysHere result.1) rt db msg tt
        λ dt session found running there.
          stop_session_cases (λ result. StaysHere result.1) rt db msg dt session (λ _. tt)
            λ _.
              settle-StaysHere rt (stopped_of rt db msg dt) msg dt session (charger_of db dt)
                (how_settled rt db dt session)
                (settlement-HasNoToken rt db dt session (charger_of db dt) session.platform)
