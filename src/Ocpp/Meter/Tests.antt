-- ===== src/Ocpp/Meter/Tests.antt =====
-- A reading of the sample session, and the theorems about readings at it.
use nest_js_project.Prelude.{◌≡◌, refl, false, none, some, List, [], ◌∷◌}
use nest_js_project.Prelude.Int.{ℤ, pos}
use nest_js_project.Schema.{ChannelSource}
use nest_js_project.Whole.{whole_number}
use nest_js_project.Samples.{clock, running_transaction, started_session, site}
use nest_js_project.Ocpp.Meter.Frame.{MeterSample, find_value, read_meter, is_transaction_begin}
use nest_js_project.Ocpp.Meter.Update.{stop_meter_value_of, used_meter_value}
use nest_js_project.Ocpp.Meter.{handle}
use nest_js_project.Ocpp.Meter.Limits.{KeepsSettlement, readings_keep_settlement}
use nest_js_project.Ocpp.Stop.Silent.{StaysHere}
use nest_js_project.Ocpp.Meter.Silent.{reading-StaysHere}
use nest_js_project.Ocpp.Meter.Stops.{stop_count, reading_of, reading_stops}

-- The meter shows 30000, of which 28000 are this session's, above its limit of 20 units.
abbrev samples : List (MeterSample ℤ)
samples =
    record {
      measurand = some "Energy.Active.Import.Register";
      location = some "Outlet";
      context = none;
      value = some (pos 30000);
    }
    ∷ []

readings_keep_settlement_example :
    KeepsSettlement site (handle clock site (reading_of 1_000_011 samples) "CP1").0
readings_keep_settlement_example =
    readings_keep_settlement clock site (reading_of 1_000_011 samples) "CP1"

goes_on : is_transaction_begin (reading_of 1_000_011 samples) ≡ false
unfolding is_transaction_begin
goes_on = refl

reading_stops_example :
    stop_count 1_000_011 (handle clock site (reading_of 1_000_011 samples) "CP1").1 ≡ 1
unfolding read_meter find_value used_meter_value stop_meter_value_of
reading_stops_example =
    reading_stops clock site 1_000_011 samples "CP1" (running_transaction 11 5)
      (started_session 21 11 ChannelSource.android) refl refl refl goes_on

reading-StaysHere_example : StaysHere (handle clock site (reading_of 1_000_011 samples) "CP1").1
reading-StaysHere_example = reading-StaysHere clock site (reading_of 1_000_011 samples) "CP1"
