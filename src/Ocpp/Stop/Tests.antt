-- ===== src/Ocpp/Stop/Tests.antt =====
-- The stop of the sample sessions, and the theorems about stops at them.
use nest_js_project.Prelude.{ℕ, ◌≡◌, refl, true, false, none, some, [], ◌∷◌}
use nest_js_project.Prelude.Int.{ℤ, pos}
use nest_js_project.Schema.{ChannelSource, DeviceTransaction, ChargingSession, Database}
use nest_js_project.Whole.{whole_number}
use nest_js_project.Store.{transaction_of, update_transaction, update_session}
use nest_js_project.Samples.{clock, running_transaction, started_session, user_wallet, site}
use nest_js_project.Ocpp.Tariff.{standard_tariff, required_tariff}
use nest_js_project.Ocpp.Stop.Reading.{StopMessage, total_wh, last_meter_value}
use nest_js_project.Ocpp.Stop.Price.{settlement, own_settlement, wallet_of, stop_user_type}
use nest_js_project.Ocpp.Stop.Payment.{bill_of, deduct, handle_wallet_deduction}
use nest_js_project.Ocpp.Stop.{
  accepted, invalid, handle, stop_session, settle, collect, how_settled, is_settled,
}
use nest_js_project.Ocpp.Stop.Once.{is_approval, stop_twice_refused}
use nest_js_project.Ocpp.Stop.Ledger.{Debits, PricedAt, charge_at, wallet_stop_conserves}
use nest_js_project.Ocpp.Stop.Thrown.{after_payment, handle_thrown, abandoned}
use nest_js_project.Ocpp.Stop.Silent.{StaysHere, stop-StaysHere}
use nest_js_project.Ocpp.Stop.Refused.{
  is_late, refused_stop_keeps_money, missing_wallet_half_stopped,
}

-- The meter stops at 7000, five units after the start: 50 at a price of 10.
abbrev pub stop_frame : ℕ → StopMessage ℤ
stop_frame n = record {
  uuid = "u";
  transaction_id = n;
  meter_stop = some (pos 7000);
  reason = none;
  sampled_values = [];
  is_abnormal_admin_stop = false;
}

abbrev no_wallet : Database ℤ
no_wallet = record site { wallets = [] }

-- The wallet pays 50.
stops_at_50 :
    (handle clock site (stop_frame 1_000_011)).0.wallets
    ≡ record user_wallet { balance = some (pos 450) } ∷ []
unfolding handle stop_session settle settlement own_settlement wallet_of standard_tariff bill_of
    deduct total_wh last_meter_value handle_wallet_deduction collect update_transaction
    update_session required_tariff stop_user_type
stops_at_50 = refl

abbrev running : DeviceTransaction ℤ
running = running_transaction 11 5

abbrev session : ChargingSession ℤ
session = started_session 21 11 ChannelSource.android

runs : is_settled running ≡ false
runs = refl

first_accepted : is_approval (handle clock site (stop_frame 1_000_011)).2 ≡ true
unfolding handle stop_session settle settlement own_settlement wallet_of
first_accepted = refl

stop_twice_refused_example :
    handle clock (handle clock site (stop_frame 1_000_011)).0 (stop_frame 1_000_011)
    ≡ ((handle clock site (stop_frame 1_000_011)).0, [], invalid "u")
stop_twice_refused_example =
    stop_twice_refused clock clock site (stop_frame 1_000_011) (stop_frame 1_000_011) refl
      first_accepted

has_wallet : (how_settled clock site running session).wallet ≡ some user_wallet
unfolding settlement own_settlement wallet_of
has_wallet = refl

wallet_stop_conserves_example :
    let (after, _, reply) = handle clock site (stop_frame 1_000_011) in
    let charge = charge_at clock site (stop_frame 1_000_011) running session in
    (reply ≡ accepted "u")
    × (after.wallets ≡ deduct 9 charge site.wallets)
    × Debits clock user_wallet charge running site after
    × PricedAt 1_000_011 charge after
wallet_stop_conserves_example =
    wallet_stop_conserves clock site (stop_frame 1_000_011) running session user_wallet refl runs
      refl refl has_wallet

-- An error that is thrown while the session is set to completed.
refused :
    is_approval (handle_thrown clock site (stop_frame 1_000_011) (some after_payment)).2 ≡ false
unfolding handle_thrown abandoned settlement own_settlement wallet_of
refused = refl

refused_stop_keeps_money_example :
    let result = handle_thrown clock site (stop_frame 1_000_011) (some after_payment) in
    (result.0.wallets ≡ site.wallets)
    × (result.0.wallet_transactions ≡ site.wallet_transactions)
    × (result.0.charging_sessions ≡ site.charging_sessions)
    × (is_late (some after_payment) ≡ false → result.1 ≡ [])
refused_stop_keeps_money_example =
    refused_stop_keeps_money clock site (stop_frame 1_000_011) (some after_payment) refused

gone : (how_settled clock no_wallet running session).wallet ≡ none
unfolding settlement own_settlement wallet_of
gone = refl

missing_wallet_half_stopped_example :
    let result = handle clock no_wallet (stop_frame 1_000_011) in
    (result.2 ≡ invalid "u")
    × ((row : DeviceTransaction ℤ) × (transaction_of result.0 1_000_011 ≡ some row)
        × (row.stop_date ≡ some 5000)
        × (row.stop_meter_value ≡ some (last_meter_value (stop_frame 1_000_011) running))
        × (row.status ≡ some 0))
missing_wallet_half_stopped_example =
    missing_wallet_half_stopped clock no_wallet (stop_frame 1_000_011) running session refl runs
      refl refl gone

stop-StaysHere_example : StaysHere (handle clock site (stop_frame 1_000_011)).1
stop-StaysHere_example = stop-StaysHere clock site (stop_frame 1_000_011)
