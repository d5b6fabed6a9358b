-- ===== src/Scheduler/Settlements/Due.antt =====
-- What the vendors are due for a day, without regard to what was settled before:
-- apps/scheduler/src/cron/cpo-settlement.cron.ts.
use nest_js_project.Prelude.{List, [], ◌∷◌, ◌++◌, if◌then◌else◌}
use nest_js_project.Schema.{DeviceTransaction, Charger, Vendor, CpoSettlement, Database}
use nest_js_project.Number.{Number}
use nest_js_project.Scheduler.Settlements.{
  SettlementRuntime, find_chargers_by_vendor, find_successful_transactions, total_from,
  transaction_fee_perc, transaction_fee, net_payble, is_nothing_due, new_settlement,
}

module _ {W : Type 0} ⦃num : Number W⦄ where
  -- One settlement of a charger that took anything in, and else none.
  abbrev pub due_of :
      SettlementRuntime W → Vendor → Charger → List (DeviceTransaction W) → List (CpoSettlement W)
  due_of rt vendor charger [] = []
  due_of rt vendor charger (t ∷ ts) =
      let total = total_from (num.of_ℕ 0) (t ∷ ts) in
      let fee = transaction_fee (transaction_fee_perc rt vendor) total in
      let net = net_payble total fee in
      if is_nothing_due total net then [] else new_settlement rt vendor charger total fee net ∷ []

  abbrev pub due_of_chargers :
      SettlementRuntime W → Database W → Vendor → List Charger → List (CpoSettlement W)
  due_of_chargers rt db vendor [] = []
  due_of_chargers rt db vendor (c ∷ cs) =
      due_of rt vendor c (find_successful_transactions db c.id rt.from_date rt.to_date)
      ++ due_of_chargers rt db vendor cs

  abbrev pub due_of_vendors :
      SettlementRuntime W → Database W → List Vendor → List (CpoSettlement W)
  due_of_vendors rt db [] = []
  due_of_vendors rt db (v ∷ vs) =
      due_of_chargers rt db v (find_chargers_by_vendor db v.id) ++ due_of_vendors rt db vs
