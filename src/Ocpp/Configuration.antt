-- ===== src/Ocpp/Configuration.antt =====
-- apps/ocpp-gateway/src/v16/handlers/configuration.handler.ts: the settings that a charger reports, a
-- row for each name. The one failure of the database that is represented is the insert
-- without the charger's key, which has no default; the handler catches it, and what was stored before
-- stays.
pub mod Lost
mod Tests
use nest_js_project.Prelude.{
  ℕ, Bool, true, false, ◌&&◌, Option, none, some, List, [], ◌∷◌, ◌++◌, String, if◌then◌else◌, ◌===◌,
  ◌==◌, find_one, update_where, holds, holds_text, filled,
}
use nest_js_project.Ocpp.Raw.{undefined, raw_keys}
use nest_js_project.Schema.{Charger, ChargerConfiguration, Database}

-- An element of `message[2].configurationKey`.
pub record ConfigurationKey : Type 0 where
  pub key : Option String  -- `name?.key`
  pub value : Option String  -- `String(name.value)`, and nothing for null or undefined
  pub readonly : Bool

-- The key that the database gives to the next row of chargerconfigurations.
pub record ConfigurationRuntime : Type 0 where
  pub new_configuration : List ChargerConfiguration → ℕ

unfoldable pub is_configuration : Option ℕ → Option String → ChargerConfiguration → Bool
is_configuration charger_ref name c =
    holds (some c.charger_ref) charger_ref && holds_text c.config_name name

abbrev pub accessibility_of : Bool → String
accessibility_of readonly = if readonly then "R" else "RW"

abbrev pub set_configuration : ConfigurationKey → ChargerConfiguration → ChargerConfiguration
set_configuration name row = record row {
  config_value = name.value;
  accessibility = some (accessibility_of name.readonly);
}

unfoldable pub new_configuration_row :
    ConfigurationRuntime
    → String
    → ℕ
    → ConfigurationKey
    → List ChargerConfiguration
    → ChargerConfiguration
new_configuration_row rt charger_id charger_ref name rows = record {
  id = rt.new_configuration rows;
  charger_id = some charger_id;
  config_name = name.key;
  config_value = name.value;
  config_description = none;
  accessibility = some (accessibility_of name.readonly);
  charger_ref = charger_ref;
}

-- `existing.id`, where the key of the row is `cc_id`.
abbrev raw_id : ChargerConfiguration → Option ℕ
raw_id c = undefined

abbrev pub insert_configuration :
    ConfigurationRuntime
    → String
    → Option ℕ
    → ConfigurationKey
    → List ChargerConfiguration
    → Option (List ChargerConfiguration)
insert_configuration rt charger_id none name rows = none
insert_configuration rt charger_id (some charger_ref) name rows =
    some (rows ++ new_configuration_row rt charger_id charger_ref name rows ∷ [])

abbrev pub on_existing :
    ConfigurationRuntime
    → String
    → Option ℕ
    → ConfigurationKey
    → List ChargerConfiguration
    → Option ChargerConfiguration
    → Option (List ChargerConfiguration)
on_existing rt charger_id charger_ref name rows none =
    insert_configuration rt charger_id charger_ref name rows
on_existing rt charger_id charger_ref name rows (some existing) =
    some (update_where (λ c. holds (some c.id) (raw_id existing)) (set_configuration name) rows)

-- The body of the loop, which gives nothing where the database throws.
unfoldable pub store_key :
    ConfigurationRuntime
    → String
    → Option ℕ
    → ConfigurationKey
    → List ChargerConfiguration
    → Option (List ChargerConfiguration)
store_key rt charger_id charger_ref name rows =
    if filled name.key
    then on_existing rt charger_id charger_ref name rows
        (find_one (is_configuration charger_ref name.key) rows)
    else some rows

-- The loop ends where the database throws.
unfoldable pub store_keys :
    ConfigurationRuntime
    → String
    → Option ℕ
    → List ConfigurationKey
    → List ChargerConfiguration
    → List ChargerConfiguration
store_keys rt charger_id charger_ref [] rows = rows
store_keys rt charger_id charger_ref (name ∷ names) rows =
    elim (store_key rt charger_id charger_ref name rows) [
      | none ↦ rows
      | some stored ↦ store_keys rt charger_id charger_ref names stored
    ]

module _ {W : Type 0} where
  abbrev pub store_for :
      ConfigurationRuntime
      → Database W
      → List ConfigurationKey
      → String
      → Option Charger
      → Database W
  store_for rt db names charger_id none = db
  store_for rt db names charger_id (some charger) = record db {
    charger_configurations =
        store_keys rt charger_id (raw_keys charger).id names db.charger_configurations;
  }

  -- What is not an array of at least one element is not looked at.
  unfoldable pub handle :
      ConfigurationRuntime → Database W → Option (List ConfigurationKey) → String → Database W
  handle rt db none charger_id = db
  handle rt db (some []) charger_id = db
  handle rt db (some (name ∷ names)) charger_id =
      store_for rt db (name ∷ names) charger_id
        (find_one (λ c. c.charger_id === charger_id) db.chargers)
