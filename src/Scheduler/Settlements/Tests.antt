-- ===== src/Scheduler/Settlements/Tests.antt =====
-- The sample charger's vendor is settled for a day with one transaction.
use nest_js_project.Prelude.{◌≡◌, refl, some, [], ◌∷◌, ◌++◌, ◌+◌, ◌*◌, ◌/◌}
use nest_js_project.Prelude.Int.{ℤ, pos}
use nest_js_project.Schema.{DeviceTransaction, Vendor, Database}
use nest_js_project.Whole.{whole_number}
use nest_js_project.Samples.{running_transaction, site}
use nest_js_project.Scheduler.Settlements.{
  SettlementRuntime, find_successful_transactions, find_existing_settlement, total_from,
  new_settlement, settle_charger, settle_chargers, settle_vendors, handle_generate_settlements,
}
use nest_js_project.Scheduler.Settlements.Due.{due_of_vendors}
use nest_js_project.Scheduler.Settlements.Again.{settled_again}

abbrev runtime : SettlementRuntime ℤ
runtime = record {
  from_date = 1000;
  to_date = 1999;
  parse_float = λ s. pos 10;
  datetime = λ t. (t + 1) / 1000 * 1000;
}

abbrev stopped : DeviceTransaction ℤ
stopped = record (running_transaction 13 5) {
  stop_date = some 1500;
  status = some 1;
  price = some (pos 300);
}

abbrev vendor : Vendor
vendor = record { id = 4; trans_fee_perc = some "10"; client_id = 1 }

abbrev yesterday : Database ℤ
yesterday = record site { device_transactions = stopped ∷ []; vendors = vendor ∷ [] }

-- 300 were taken, a tenth of which is the fee.
settlement_test :
    (handle_generate_settlements runtime yesterday).cpo_settlements
    ≡ record {
      charger_id = 3;
      vendor_id = 4;
      client_id = 1;
      from_date = some 1000;
      to_date = some 2000;
      platform_fee = some (pos 0);
      extra_fee = some (pos 0);
      total_amount = some (pos 300);
      transaction_fee = some (pos 30);
      net_payble = some (pos 270);
      status = some "Due";
    }
      ∷ []
unfolding handle_generate_settlements settle_vendors settle_chargers settle_charger
    find_successful_transactions find_existing_settlement total_from new_settlement
settlement_test = refl

-- The last millisecond of the day is rounded up.
settled_again_example :
    let once = handle_generate_settlements runtime yesterday in
    (once.cpo_settlements
      ≡ yesterday.cpo_settlements ++ due_of_vendors runtime yesterday yesterday.vendors)
    × ((handle_generate_settlements runtime once).cpo_settlements
        ≡ (yesterday.cpo_settlements ++ due_of_vendors runtime yesterday yesterday.vendors)
          ++ due_of_vendors runtime yesterday yesterday.vendors)
settled_again_example = settled_again runtime yesterday refl tt
