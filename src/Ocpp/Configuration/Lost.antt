-- ===== src/Ocpp/Configuration/Lost.antt =====
-- What becomes of the settings that a charger reports: `handle` of v16/handlers/configuration.handler.ts.
use nest_js_project.Prelude.{
  ◌≡◌, refl, ap, Bool-cases, Option, true, false, none, some, inl, inr, List, [], ◌∷◌, String,
  ◌===◌, find_one, filled,
}
use nest_js_project.Schema.{Charger, ChargerConfiguration, Database}
use nest_js_project.Ocpp.Raw.{undefined, raw_keys}
use nest_js_project.Ocpp.Configuration.{
  ConfigurationKey, ConfigurationRuntime, is_configuration, store_key, store_keys, store_for,
  handle,
}

-- No row belongs to an undefined charger.
no_configuration_found :
    (name : Option String) (rows : List ChargerConfiguration)
    → find_one (is_configuration undefined name) rows ≡ none
unfolding is_configuration
no_configuration_found name [] = refl
no_configuration_found name (r ∷ rs) = no_configuration_found name rs

store_key-unnamed :
    (rt : ConfigurationRuntime) (charger_id : String) (name : ConfigurationKey)
    (rows : List ChargerConfiguration)
    → filled name.key ≡ false
    → store_key rt charger_id undefined name rows ≡ some rows
unfolding store_key
store_key-unnamed rt charger_id name rows unnamed = rw unnamed refl

-- There is no row to update, and the insert without the charger's key is refused.
store_key-named :
    (rt : ConfigurationRuntime) (charger_id : String) (name : ConfigurationKey)
    (rows : List ChargerConfiguration)
    → filled name.key ≡ true
    → store_key rt charger_id undefined name rows ≡ none
unfolding store_key
store_key-named rt charger_id name rows named =
    rw (named, no_configuration_found name.key rows) refl

store_keys-undefined :
    (rt : ConfigurationRuntime) (charger_id : String) (names : List ConfigurationKey)
    (rows : List ChargerConfiguration)
    → store_keys rt charger_id undefined names rows ≡ rows
unfolding store_keys
store_keys-undefined rt charger_id [] rows = refl
store_keys-undefined rt charger_id (name ∷ names) rows = elim (Bool-cases (filled name.key)) [
  | inl named ↦ rw (store_key-named rt charger_id name rows named, store_keys) refl
  | inr unnamed ↦
      rw (store_key-unnamed rt charger_id name rows unnamed, store_keys)
        (store_keys-undefined rt charger_id names rows)
]

module _ {W : Type 0} where
  store_for-keeps :
      (rt : ConfigurationRuntime) (db : Database W) (names : List ConfigurationKey)
      (charger_id : String) (found : Option Charger)
      → store_for rt db names charger_id found ≡ db
  unfolding raw_keys
  store_for-keeps rt db names charger_id none = refl
  store_for-keeps rt db names charger_id (some charger) =
      ap (λ (cs : List ChargerConfiguration). record db { charger_configurations = cs })
        (store_keys-undefined rt charger_id names db.charger_configurations)

  -- No report of a charger's settings changes the database: neither is a known setting updated nor a
  -- new one stored.
  pub settings_are_lost :
      (rt : ConfigurationRuntime) (db : Database W) (report : Option (List ConfigurationKey))
      (charger_id : String)
      → handle rt db report charger_id ≡ db
  unfolding handle
  settings_are_lost rt db none charger_id = refl
  settings_are_lost rt db (some []) charger_id = refl
  settings_are_lost rt db (some (name ∷ names)) charger_id =
      store_for-keeps rt db (name ∷ names) charger_id
        (find_one (λ c. c.charger_id === charger_id) db.chargers)
