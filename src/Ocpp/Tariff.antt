-- ===== src/Ocpp/Tariff.antt =====
-- How the gateway finds the price of a charging session: `resolveActiveUserType` and
-- `resolveTariff` of v16/handlers/start-transaction.handler.ts, which
-- v16/handlers/stop-transaction.handler.ts repeats.
use nest_js_project.Prelude.{
  ℕ, Bool, true, ◌&&◌, ◌||◌, Option, none, some, List, if◌then◌else◌, ◌==◌, leb, find_one, holds,
  is_null, or_else,
}
use nest_js_project.Schema.{Tariff, UserType, VendorUser, Database}
use nest_js_project.Ocpp.Runtime.{Runtime}
use nest_js_project.Ocpp.Raw.{ChargerKeys}

-- `toDateOnly(d)`, and `!d` on its result: midnight 0 is falsy.
abbrev pub no_bound : Runtime → Option ℕ → Bool
no_bound rt none = true
no_bound rt (some d) = rt.midnight d == 0

abbrev pub midnight_or_zero : Runtime → Option ℕ → ℕ
midnight_or_zero rt none = 0
midnight_or_zero rt (some d) = rt.midnight d

unfoldable pub is_current : Runtime → UserType → Bool
is_current rt u =
    (no_bound rt u.start_date || leb (midnight_or_zero rt u.start_date) (rt.midnight rt.now))
    && (no_bound rt u.end_date || leb (rt.midnight rt.now) (midnight_or_zero rt u.end_date))

-- A user type counts only between its two dates, each of which may be missing.
unfoldable pub resolve_active_user_type : Runtime → Option UserType → Option UserType
resolve_active_user_type rt none = none
resolve_active_user_type rt (some u) = if is_current rt u then some u else none

-- The left join of a vendor's user with its user type.
abbrev pub joined_user_type : List UserType → Option VendorUser → Option UserType
joined_user_type types none = none
joined_user_type types (some vu) = find_one (λ u. holds vu.user_type_id (some u.id)) types

module _ {W : Type 0} where
  unfoldable pub user_type_of_user : Runtime → Database W → ChargerKeys → Option ℕ → Option UserType
  unfolding resolve_active_user_type
  user_type_of_user rt db charger user_id = resolve_active_user_type rt (
      joined_user_type db.user_types (
        find_one (λ vu. holds charger.vendor_id (some vu.vendor_id) && holds vu.user_id user_id)
          db.vendor_users))

  unfoldable pub user_type_of_group :
      Runtime → Database W → ChargerKeys → Option ℕ → Option UserType
  unfolding resolve_active_user_type
  user_type_of_group rt db charger group_id = resolve_active_user_type rt (
      joined_user_type db.user_types (
        find_one
          (λ vu. holds charger.vendor_id (some vu.vendor_id) && holds vu.fleet_group_id group_id)
          db.vendor_users))

  -- The charger's standard price, for users without a type.
  unfoldable pub standard_tariff : Database W → ChargerKeys → Option (Tariff W)
  standard_tariff db charger =
      find_one
        (λ t.
          holds t.vendor_id charger.vendor_id
          && holds (some t.charger_id) charger.id
          && is_null t.user_type_id)
        db.tariffs

  unfoldable pub typed_tariff : Database W → ChargerKeys → UserType → Option (Tariff W)
  typed_tariff db charger u =
      find_one
        (λ t.
          holds t.vendor_id charger.vendor_id
          && holds (some t.charger_id) charger.id
          && holds t.user_type_id (some u.id))
        db.tariffs

  -- The price of the user's type, or else the standard one.
  unfoldable pub required_tariff : Database W → ChargerKeys → Option UserType → Option (Tariff W)
  unfolding standard_tariff typed_tariff
  required_tariff db charger none = standard_tariff db charger
  required_tariff db charger (some u) =
      or_else (typed_tariff db charger u) (standard_tariff db charger)

  abbrev pub tariff_user_type : Database W → Option (Tariff W) → Option UserType
  tariff_user_type db none = none
  tariff_user_type db (some t) = find_one (λ u. holds t.user_type_id (some u.id)) db.user_types
