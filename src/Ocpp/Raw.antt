-- ===== src/Ocpp/Raw.antt =====
-- What the gateway's handlers read of a row. Every table is registered as an entity
-- (database/src/database.module.ts), so that TypeORM names the columns of a row that `getRawOne()` gives
-- for `select(['c.id'])` after the alias, `c_id`. The handlers read `charger.id` of such a row, which
-- is undefined. `select('c.*')` and `getOne()` give the columns under their own names.
use nest_js_project.Prelude.{ℕ, String, Option, none, some}
use nest_js_project.Schema.{Charger}

-- A property that an object does not have. As a parameter of a query it is NULL.
abbrev pub undefined {ℓ} : {A : Type ℓ} → Option A
undefined = none

-- The properties of the object `charger` that the handlers read.
pub record ChargerKeys : Type 0 where
  pub id : Option ℕ
  pub charger_id : Option String
  pub vendor_id : Option ℕ
  pub client_id : Option ℕ

-- Of a row with its columns under their own names.
abbrev pub own_keys : Charger → ChargerKeys
own_keys c = record {
  id = some c.id;
  charger_id = some c.charger_id;
  vendor_id = c.vendor_id;
  client_id = some c.client_id;
}

-- Of a row of `select(['c.id', 'c.chargerId', …])` and `getRawOne()`.
unfoldable pub raw_keys : Charger → ChargerKeys
raw_keys c = record {
  id = undefined;
  charger_id = undefined;
  vendor_id = undefined;
  client_id = undefined;
}
