-- ===== src/Scheduler/Amc/Tests.antt =====
-- Two contracts, one that has run out and one whose month begins.
use nest_js_project.Prelude.{ℕ, ◌≡◌, ◌+◌, ◌/◌, ◌%◌, refl, none, some, [], ◌∷◌, map, All, UniqueKeys}
use nest_js_project.Prelude.Int.{ℤ, pos}
use nest_js_project.Schema.{ClientAmc, ClientAmcStatus, Database}
use nest_js_project.Whole.{whole_number, whole-IsNumber}
use nest_js_project.Samples.{site}
use nest_js_project.Scheduler.Amc.{
  Calendar, amc_id, handle_client_amc_expiry, process_cycle, process_cycles, expire_client_amcs,
  mark_client_amc_expired, used_in_cycle, used_hours, remaining_hours,
  find_closed_supports_in_cycle, cycle_end,
}
use nest_js_project.Scheduler.Amc.Pass.{after_night, handle_client_amc_expiry-pass}
use nest_js_project.Scheduler.Amc.Once.{charged_once}
use nest_js_project.Scheduler.Amc.Hours.{HasHours, handle_client_amc_expiry-HasHours}

-- Days of ten, in months of a hundred, in years of a thousand.
abbrev calendar : Calendar
calendar = record {
  date = λ t. t % 100 / 10;
  month = λ t. t % 1000 / 100;
  year = λ t. t / 1000;
  midnight = λ t. t / 10;
  set_date = λ t d. t;
  next_month = λ t. t + 100;
  utc_date = λ t. t / 10;
}

abbrev contract : ℕ → ℕ → ClientAmc ℤ
contract id end = record {
  id = id;
  client_id = 1;
  start_date = some 1050;
  end_date = some end;
  standard_amc_hours = some (pos 120);
  remaining_amc_hours = some (pos 100);
  status = some ClientAmcStatus.active;
  last_cycle_processed_at = none;
}

abbrev contracts : Database ℤ
contracts = record site { client_amcs = contract 1 100 ∷ contract 2 9000 ∷ [] }

-- The first runs out, and the second loses a twelfth of its 120 hours.
night_test :
    (handle_client_amc_expiry calendar 3155 contracts).client_amcs
    ≡ record (contract 1 100) { status = some ClientAmcStatus.expired }
      ∷ record (contract 2 9000) {
        remaining_amc_hours = some (pos 90);
        last_cycle_processed_at = some 3155;
      }
      ∷ []
unfolding handle_client_amc_expiry process_cycles process_cycle expire_client_amcs
    mark_client_amc_expired used_in_cycle used_hours remaining_hours find_closed_supports_in_cycle
    cycle_end
night_test = refl

unique : UniqueKeys amc_id contracts.client_amcs
unique = ((refl, tt), (tt, tt))

handle_client_amc_expiry-pass_example :
    handle_client_amc_expiry calendar 3155 contracts
    ≡ record contracts { client_amcs = map (after_night calendar [] 3155) contracts.client_amcs }
handle_client_amc_expiry-pass_example = handle_client_amc_expiry-pass calendar 3155 contracts unique

charged_once_example :
    handle_client_amc_expiry calendar 3158 (handle_client_amc_expiry calendar 3155 contracts)
    ≡ handle_client_amc_expiry calendar 3155 contracts
charged_once_example =
    charged_once calendar 3155 3158 contracts unique
      (record { same_date = refl; same_month_of = refl; same_year = refl; same_utc_date = refl })

handle_client_amc_expiry-HasHours_example :
    All HasHours (handle_client_amc_expiry calendar 3155 contracts).client_amcs
handle_client_amc_expiry-HasHours_example =
    handle_client_amc_expiry-HasHours whole-IsNumber calendar 3155 contracts (refl, (refl, tt))
