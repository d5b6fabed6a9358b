-- ===== src/Ocpp/Configuration/Tests.antt =====
-- The sample charger reports its settings.
use nest_js_project.Prelude.{◌≡◌, true, false, none, some, List, [], ◌∷◌}
use nest_js_project.Prelude.Int.{ℤ}
use nest_js_project.Schema.{ChargerConfiguration, Database}
use nest_js_project.Samples.{site}
use nest_js_project.Ocpp.Configuration.Lost.{settings_are_lost}
use nest_js_project.Ocpp.Configuration.{ConfigurationKey, ConfigurationRuntime, handle}

abbrev runtime : ConfigurationRuntime
runtime = record { new_configuration = λ rows. 71 }

abbrev interval : ChargerConfiguration
interval = record {
  id = 70;
  charger_id = some "CP1";
  config_name = some "HeartbeatInterval";
  config_value = some "60";
  config_description = none;
  accessibility = some "RW";
  charger_ref = 3;
}

abbrev configured : Database ℤ
configured = record site { charger_configurations = interval ∷ [] }

abbrev reported : List ConfigurationKey
reported =
    record { key = some "HeartbeatInterval"; value = some "30"; readonly = false }
    ∷ record { key = some "Connectors"; value = none; readonly = true }
    ∷ record { key = none; value = some "1"; readonly = true }
    ∷ []

-- The sample charger's report, with a known setting, a new one, and an entry without a name.
settings_are_lost_example : handle runtime configured (some reported) "CP1" ≡ configured
settings_are_lost_example = settings_are_lost runtime configured (some reported) "CP1"
