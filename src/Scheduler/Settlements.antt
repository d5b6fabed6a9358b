-- ===== src/Scheduler/Settlements.antt =====
-- apps/scheduler/src/cron/cpo-settlement.cron.ts, with repositories/cpo-settlement.repository.ts: at
-- night each vendor gets a settlement of what each of its chargers took in on the day before.
pub mod Due
pub mod Again
mod Tests
use nest_js_project.Prelude.{
  ℕ, Bool, true, false, ◌&&◌, Option, none, some, List, [], ◌∷◌, ◌++◌, String, if◌then◌else◌, ◌==◌,
  leb, find_one, find_all, holds, is_some, filled, get_or_else,
}
use nest_js_project.Schema.{DeviceTransaction, Charger, Vendor, CpoSettlement, Database}
use nest_js_project.Number.{Number, number_or_zero}

-- What the job takes from the libraries and the run time.
pub record SettlementRuntime (W : Type 0) : Type 0 where
  pub from_date : ℕ  -- `getYesterdayRangeIstToUtc()`
  pub to_date : ℕ
  pub parse_float : String → W
  pub datetime : ℕ → ℕ  -- the instant that a DATETIME column keeps

abbrev between : ℕ → ℕ → Option ℕ → Bool
between from to none = false
between from to (some t) = leb from t && leb t to

module _ {W : Type 0} where
  abbrev pub find_chargers_by_vendor : Database W → ℕ → List Charger
  find_chargers_by_vendor db vendor_id =
      find_all (λ c. holds c.vendor_id (some vendor_id)) db.chargers

  unfoldable pub find_successful_transactions : Database W → ℕ → ℕ → ℕ → List (DeviceTransaction W)
  find_successful_transactions db charger_ref from to =
      find_all
        (λ t.
          holds t.charger_ref (some charger_ref)
          && holds t.status (some 1)
          && between from to t.stop_date)
        db.device_transactions

  -- `where: { vendorId, chargerId, fromDate, toDate }`.
  abbrev pub is_settlement_of : ℕ → ℕ → ℕ → ℕ → CpoSettlement W → Bool
  is_settlement_of vendor_id charger_id from to s =
      s.vendor_id == vendor_id
      && s.charger_id == charger_id
      && holds s.from_date (some from)
      && holds s.to_date (some to)

  unfoldable pub find_existing_settlement :
      ℕ → ℕ → ℕ → ℕ → List (CpoSettlement W) → Option (CpoSettlement W)
  find_existing_settlement vendor_id charger_id from to settlements =
      find_one (is_settlement_of vendor_id charger_id from to) settlements

module _ {W : Type 0} ⦃num : Number W⦄ where
  open num use {of_ℕ, add, sub, mul, div, lt, le, to_fixed}

  -- `reduce((sum, txn) => sum + parseFloat(String(txn.price || 0)), 0)`.
  unfoldable pub total_from : W → List (DeviceTransaction W) → W
  total_from sum [] = sum
  total_from sum (t ∷ ts) = total_from (add sum (number_or_zero t.price)) ts

  abbrev pub transaction_fee_perc : SettlementRuntime W → Vendor → W
  transaction_fee_perc rt vendor = number_or_zero (
      some (
        rt.parse_float
          (if filled vendor.trans_fee_perc then get_or_else vendor.trans_fee_perc "0" else "0")))

  abbrev pub transaction_fee : W → W → W
  transaction_fee perc total = if lt (of_ℕ 0) perc then div (mul total perc) (of_ℕ 100) else of_ℕ 0

  abbrev pub net_payble : W → W → W
  net_payble total fee = sub (sub (sub total fee) (of_ℕ 0)) (of_ℕ 0)

  -- The row as the table keeps it.
  unfoldable pub new_settlement :
      SettlementRuntime W → Vendor → Charger → W → W → W → CpoSettlement W
  new_settlement rt vendor charger total fee net = record {
    charger_id = charger.id;
    vendor_id = vendor.id;
    client_id = charger.client_id;
    from_date = some (rt.datetime rt.from_date);
    to_date = some (rt.datetime rt.to_date);
    platform_fee = some (to_fixed 2 (of_ℕ 0));
    extra_fee = some (to_fixed 2 (of_ℕ 0));
    total_amount = some (to_fixed 2 total);
    transaction_fee = some (to_fixed 2 fee);
    net_payble = some (to_fixed 2 net);
    status = some "Due";
  }

  abbrev pub create_once :
      SettlementRuntime W
      → Vendor
      → Charger
      → CpoSettlement W
      → List (CpoSettlement W)
      → List (CpoSettlement W)
  create_once rt vendor charger row settlements =
      if is_some (find_existing_settlement vendor.id charger.id rt.from_date rt.to_date settlements)
      then settlements
      else settlements ++ row ∷ []

  abbrev pub is_nothing_due : W → W → Bool
  is_nothing_due total net = le total (of_ℕ 0) && le net (of_ℕ 0)

  abbrev pub on_transactions :
      SettlementRuntime W
      → Vendor
      → Charger
      → List (DeviceTransaction W)
      → List (CpoSettlement W)
      → List (CpoSettlement W)
  on_transactions rt vendor charger [] settlements = settlements
  on_transactions rt vendor charger (t ∷ ts) settlements =
      let total = total_from (of_ℕ 0) (t ∷ ts) in
      let fee = transaction_fee (transaction_fee_perc rt vendor) total in
      let net = net_payble total fee in
      if is_nothing_due total net
      then settlements
      else create_once rt vendor charger (new_settlement rt vendor charger total fee net)
          settlements

  -- The body of the loop over a vendor's chargers.
  unfoldable pub settle_charger :
      SettlementRuntime W
      → Database W
      → Vendor
      → Charger
      → List (CpoSettlement W)
      → List (CpoSettlement W)
  settle_charger rt db vendor charger settlements =
      on_transactions rt vendor charger
        (find_successful_transactions db charger.id rt.from_date rt.to_date) settlements

  unfoldable pub settle_chargers :
      SettlementRuntime W
      → Database W
      → Vendor
      → List Charger
      → List (CpoSettlement W)
      → List (CpoSettlement W)
  settle_chargers rt db vendor [] settlements = settlements
  settle_chargers rt db vendor (c ∷ cs) settlements =
      settle_chargers rt db vendor cs (settle_charger rt db vendor c settlements)

  unfoldable pub settle_vendors :
      SettlementRuntime W
      → Database W
      → List Vendor
      → List (CpoSettlement W)
      → List (CpoSettlement W)
  settle_vendors rt db [] settlements = settlements
  settle_vendors rt db (v ∷ vs) settlements =
      settle_vendors rt db vs
        (settle_chargers rt db v (find_chargers_by_vendor db v.id) settlements)

  -- `handleGenerateSettlements`: the loops write to no other table, and read the rest as it is.
  unfoldable pub handle_generate_settlements : SettlementRuntime W → Database W → Database W
  handle_generate_settlements rt db = record db {
    cpo_settlements = settle_vendors rt db db.vendors db.cpo_settlements;
  }
