-- ===== src/Scheduler/Amc.antt =====
-- apps/scheduler/src/cron/amc-expiry.cron.ts, with repositories/amc-expiry.repository.ts: the
-- maintenance contracts of clients expire, and lose the hours of each month that were not used.
pub mod Pass
pub mod Cycle
pub mod Once
pub mod Hours
mod Tests
use nest_js_project.Prelude.{
  ℕ, Bool, true, false, ◌&&◌, not, Option, none, some, List, [], ◌∷◌, if◌then◌else◌, ◌==◌, ltb, leb,
  find_all, update_each,
}
use nest_js_project.Schema.{
  ClientAmc, ClientAmcStatus, ClientSupport, is_active_amc, is_closed, Database,
}
use nest_js_project.Number.{Number, number_or_zero}

-- JavaScript's dates, in the server's time zone.
pub record Calendar : Type 0 where
  pub date : ℕ → ℕ  -- `getDate()`
  pub month : ℕ → ℕ  -- `getMonth()`
  pub year : ℕ → ℕ  -- `getFullYear()`
  pub midnight : ℕ → ℕ  -- `setHours(0, 0, 0, 0)`
  pub set_date : ℕ → ℕ → ℕ  -- `setDate(day)`
  pub next_month : ℕ → ℕ  -- `setMonth(getMonth() + 1)`
  pub utc_date : ℕ → ℕ  -- `new Date(t.toISOString().split('T')[0])`

abbrev pub earlier : Option ℕ → ℕ → Bool
earlier none t = false
earlier (some d) t = ltb d t

module _ {W : Type 0} where
  -- The test of `findExpiredClientAmcCandidates`; `Not('Expired')` skips NULL.
  abbrev pub is_expired_candidate : ℕ → ClientAmc W → Bool
  is_expired_candidate today a = earlier a.end_date today && is_active_amc a.status

  unfoldable pub mark_client_amc_expired : ClientAmc W → ClientAmc W
  mark_client_amc_expired row = record row { status = some ClientAmcStatus.expired }

  abbrev pub amc_id : ClientAmc W → ℕ
  amc_id a = a.id

  unfoldable pub expire_client_amcs : ℕ → List (ClientAmc W) → List (ClientAmc W)
  expire_client_amcs today rows =
      update_each amc_id (λ a. mark_client_amc_expired) (find_all (is_expired_candidate today) rows)
        rows

  unfoldable pub find_closed_supports_in_cycle :
      List (ClientSupport W) → ℕ → ℕ → ℕ → List (ClientSupport W)
  find_closed_supports_in_cycle supports client_id cycle_start cycle_end =
      find_all
        (λ s.
          s.client_id == client_id
          && is_closed s.status
          && leb cycle_start s.created_at
          && ltb s.created_at cycle_end)
        supports

-- Whether two instants lie in the same month of the same year.
abbrev pub same_month : Calendar → ℕ → ℕ → Bool
same_month cal s t = (cal.month s == cal.month t) && (cal.year s == cal.year t)

-- `amc.last_cycle_processed_at` lies in the month of `today`.
abbrev pub is_processed_this_month : Calendar → ℕ → Option ℕ → Bool
is_processed_this_month cal today none = false
is_processed_this_month cal today (some last) = same_month cal last today

unfoldable pub cycle_end : Calendar → ℕ → ℕ → ℕ
cycle_end cal cycle_start start_day =
    let end = cal.next_month cycle_start in
    if cal.date end == start_day then end else cal.set_date end 0

module _ {W : Type 0} ⦃num : Number W⦄ where
  open num use {of_ℕ, add, sub, div, lt, max}

  unfoldable pub used_hours : W → List (ClientSupport W) → W
  used_hours sum [] = sum
  used_hours sum (s ∷ ss) = used_hours (add sum (number_or_zero s.deducted_amc_hours)) ss

  abbrev pub monthly_hours : ClientAmc W → W
  monthly_hours amc = div (number_or_zero amc.standard_amc_hours) (of_ℕ 12)

  -- The hours that are left when the month's unused hours are taken off.
  unfoldable pub remaining_hours : ClientAmc W → W → W
  remaining_hours amc used =
      max (of_ℕ 0) (sub (number_or_zero amc.remaining_amc_hours) (sub (monthly_hours amc) used))

  unfoldable pub used_in_cycle : Calendar → List (ClientSupport W) → ℕ → ClientAmc W → ℕ → W
  used_in_cycle cal supports today amc start_day =
      let cycle_start = cal.set_date (cal.midnight today) start_day in
      used_hours (of_ℕ 0) (
        find_closed_supports_in_cycle supports amc.client_id cycle_start
          (cycle_end cal cycle_start start_day))

  -- `updateClientAmcCycle`.
  abbrev pub update_client_amc_cycle : ℕ → ClientAmc W → W → ClientAmc W → ClientAmc W
  update_client_amc_cycle today amc used row =
      if lt used (monthly_hours amc)
      then (record row {
        remaining_amc_hours = some (remaining_hours amc used);
        last_cycle_processed_at = some today;
      })
      else (record row { last_cycle_processed_at = some today })

  abbrev pub on_start :
      Calendar
      → List (ClientSupport W)
      → ℕ
      → ClientAmc W
      → Option ℕ
      → Option ℕ
      → ClientAmc W
      → ClientAmc W
  on_start cal supports today amc none last row = row
  on_start cal supports today amc (some start) last row =
      if cal.date today == cal.date start
      then (if is_processed_this_month cal today last
          then row
          else update_client_amc_cycle today amc
              (used_in_cycle cal supports today amc (cal.date start)) row)
      else row

  -- The body of the loop over the active contracts: what becomes of the contract's row.
  unfoldable pub process_cycle :
      Calendar → List (ClientSupport W) → ℕ → ClientAmc W → ClientAmc W → ClientAmc W
  process_cycle cal supports today amc row =
      on_start cal supports today amc amc.start_date amc.last_cycle_processed_at row

  unfoldable pub process_cycles :
      Calendar → List (ClientSupport W) → ℕ → List (ClientAmc W) → List (ClientAmc W)
  process_cycles cal supports today rows =
      update_each amc_id (process_cycle cal supports today)
        (find_all (λ a. is_active_amc a.status) rows) rows

  unfoldable pub handle_client_amc_expiry : Calendar → ℕ → Database W → Database W
  handle_client_amc_expiry cal today db = record db {
    client_amcs =
        process_cycles cal db.client_supports today
          (expire_client_amcs (cal.utc_date today) db.client_amcs);
  }
