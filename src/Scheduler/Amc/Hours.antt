-- ===== src/Scheduler/Amc/Hours.antt =====
-- apps/scheduler/src/cron/amc-expiry.cron.ts: the hours that are left of a contract.
use nest_js_project.Prelude.{
  ℕ, ◌≡◌, false, Bool-cases, inl, inr, Option, none, some, List, ◌==◌, find_all, All,
  All-update_each,
}
use nest_js_project.Schema.{ClientAmc, ClientSupport, is_active_amc, Database}
use nest_js_project.Number.{Number, IsNumber, number_or_zero}
use nest_js_project.Scheduler.Amc.{
  Calendar, amc_id, is_expired_candidate, mark_client_amc_expired, expire_client_amcs,
  process_cycle, process_cycles, handle_client_amc_expiry, on_start, update_client_amc_cycle,
  used_in_cycle, monthly_hours, remaining_hours, is_processed_this_month,
}

module _ {W : Type 0} ⦃num : Number W⦄ where
  abbrev NotNegative : Option W → Type 0
  NotNegative none = Unit
  NotNegative (some hours) = num.lt hours (num.of_ℕ 0) ≡ false

  -- No hours are left, or not fewer than zero.
  abbrev pub HasHours : ClientAmc W → Type 0
  HasHours a = NotNegative a.remaining_amc_hours

  update-HasHours :
      (law : IsNumber W) (today : ℕ) (amc : ClientAmc W) (used : W) (row : ClientAmc W)
      → HasHours row
      → HasHours (update_client_amc_cycle today amc used row)
  unfolding remaining_hours
  update-HasHours law today amc used row h = elim (Bool-cases (num.lt used (monthly_hours amc))) [
    | inl unused ↦ rw unused (
        law.max_not_below (num.of_ℕ 0)
          (num.sub (number_or_zero amc.remaining_amc_hours) (num.sub (monthly_hours amc) used)))
    | inr used_up ↦ rw used_up h
  ]

  on_start-HasHours :
      (law : IsNumber W) (cal : Calendar) (supports : List (ClientSupport W)) (today : ℕ)
      (amc : ClientAmc W) (start last : Option ℕ) (row : ClientAmc W)
      → HasHours row
      → HasHours (on_start cal supports today amc start last row)
  on_start-HasHours law cal supports today amc none last row h = h
  on_start-HasHours law cal supports today amc (some begin) last row h =
      elim (Bool-cases (cal.date today == cal.date begin)) [
        | inl due ↦ elim (Bool-cases (is_processed_this_month cal today last)) [
          | inl done ↦ rw (due, done) h
          | inr fresh ↦
              rw (due, fresh)
                (update-HasHours law today amc
                  (used_in_cycle cal supports today amc (cal.date begin)) row h)
        ]
        | inr other ↦ rw other h
      ]

  process_cycle-HasHours :
      (law : IsNumber W) (cal : Calendar) (supports : List (ClientSupport W)) (today : ℕ)
      (amc row : ClientAmc W)
      → HasHours row
      → HasHours (process_cycle cal supports today amc row)
  unfolding process_cycle
  process_cycle-HasHours law cal supports today amc row =
      on_start-HasHours law cal supports today amc amc.start_date amc.last_cycle_processed_at row

  -- Where no contract has fewer than zero hours left, none has after the nightly job.
  pub handle_client_amc_expiry-HasHours :
      (law : IsNumber W) (cal : Calendar) (today : ℕ) (db : Database W)
      → All HasHours db.client_amcs
      → All HasHours (handle_client_amc_expiry cal today db).client_amcs
  unfolding handle_client_amc_expiry process_cycles expire_client_amcs mark_client_amc_expired
  handle_client_amc_expiry-HasHours law cal today db h =
      let expired = expire_client_amcs (cal.utc_date today) db.client_amcs in
      All-update_each amc_id HasHours (process_cycle cal db.client_supports today)
        (process_cycle-HasHours law cal db.client_supports today)
        (find_all (λ a. is_active_amc a.status) expired) expired
        (All-update_each amc_id HasHours (λ a. mark_client_amc_expired) (λ r x p. p)
          (find_all (is_expired_candidate (cal.utc_date today)) db.client_amcs) db.client_amcs h)
