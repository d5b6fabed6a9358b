-- ===== src/Scheduler/Amc/Once.antt =====
-- apps/scheduler/src/cron/amc-expiry.cron.ts: the job once more in the same night.
use nest_js_project.Prelude.{
  ℕ, ◌≡◌, refl, sym, ap, ◌∙◌, false, Bool-cases, inl, inr, List, map, ◌&&◌, arith, UniqueKeys,
  UniqueKeys-map, map-twice,
}
use nest_js_project.Schema.{ClientAmc, ClientSupport, is_active_amc, Database}
use nest_js_project.Number.{Number}
use nest_js_project.Scheduler.Amc.{
  Calendar, earlier, amc_id, is_expired_candidate, mark_client_amc_expired, process_cycle,
  handle_client_amc_expiry,
}
use nest_js_project.Scheduler.Amc.Cycle.{
  SameNight, process_cycle-again, process_cycle-status, process_cycle-end_date,
}
use nest_js_project.Scheduler.Amc.Pass.{
  process_cycle-id, after_night, handle_client_amc_expiry-pass,
}

module _ {W : Type 0} ⦃num : Number W⦄ where
  abbrev Fixed : Calendar → List (ClientSupport W) → ℕ → ClientAmc W → Type 0
  Fixed cal supports t x = after_night cal supports t x ≡ x

  inactive-Fixed :
      (cal : Calendar) (supports : List (ClientSupport W)) (t : ℕ) (x : ClientAmc W)
      → is_active_amc x.status ≡ false
      → Fixed cal supports t x
  inactive-Fixed cal supports t x inactive = ground (arith, inactive)

  settled-Fixed :
      (cal : Calendar) (supports : List (ClientSupport W)) (t : ℕ) (x : ClientAmc W)
      → is_expired_candidate (cal.utc_date t) x ≡ false
      → process_cycle cal supports t x x ≡ x
      → Fixed cal supports t x
  settled-Fixed cal supports t x goes_on done = elim (Bool-cases (is_active_amc x.status)) [
    | inl active ↦ rw (goes_on, active) done
    | inr inactive ↦ inactive-Fixed cal supports t x inactive
  ]

  candidate-again :
      (cal : Calendar) (supports : List (ClientSupport W)) (s t : ℕ) (a : ClientAmc W)
      → SameNight cal s t
      → is_expired_candidate (cal.utc_date t) (process_cycle cal supports s a a)
        ≡ is_expired_candidate (cal.utc_date s) a
  candidate-again cal supports s t a same =
      ap (λ u. is_expired_candidate u (process_cycle cal supports s a a)) (sym same.same_utc_date)
      ∙ ap
          (λ e.
            earlier e (cal.utc_date s) && is_active_amc (process_cycle cal supports s a a).status)
          (process_cycle-end_date cal supports s a)
      ∙ ap (λ st. earlier a.end_date (cal.utc_date s) && is_active_amc st)
          (process_cycle-status cal supports s a)

  after_night-again :
      (cal : Calendar) (supports : List (ClientSupport W)) (s t : ℕ) (a : ClientAmc W)
      → SameNight cal s t
      → Fixed cal supports t (after_night cal supports s a)
  unfolding mark_client_amc_expired
  after_night-again cal supports s t a same =
      elim (Bool-cases (is_expired_candidate (cal.utc_date s) a)) [
        | inl over ↦ rw over (inactive-Fixed cal supports t (mark_client_amc_expired a) refl)
        | inr goes_on ↦ elim (Bool-cases (is_active_amc a.status)) [
          | inl active ↦
              rw (goes_on, active)
                (settled-Fixed cal supports t (process_cycle cal supports s a a)
                  (candidate-again cal supports s t a same ∙ goes_on)
                  (process_cycle-again cal supports s t a same))
          | inr inactive ↦ rw (goes_on, inactive) (inactive-Fixed cal supports t a inactive)
        ]
      ]

  after_night-id :
      (cal : Calendar) (supports : List (ClientSupport W)) (today : ℕ) (a : ClientAmc W)
      → (after_night cal supports today a).id ≡ a.id
  unfolding mark_client_amc_expired
  after_night-id cal supports today a =
      elim (Bool-cases (is_expired_candidate (cal.utc_date today) a)) [
        | inl over ↦ rw over refl
        | inr goes_on ↦ elim (Bool-cases (is_active_amc a.status)) [
          | inl active ↦ rw (goes_on, active) (process_cycle-id cal supports today a a)
          | inr inactive ↦ rw (goes_on, inactive) refl
        ]
      ]

  -- The nightly job on the contracts, run a second time in the same night, changes nothing: no contract
  -- is charged twice for its month. The keys of the table are unique.
  pub charged_once :
      (cal : Calendar) (s t : ℕ) (db : Database W)
      → UniqueKeys amc_id db.client_amcs
      → SameNight cal s t
      → handle_client_amc_expiry cal t (handle_client_amc_expiry cal s db)
        ≡ handle_client_amc_expiry cal s db
  charged_once cal s t db unique same =
      let rows = map (after_night cal db.client_supports s) db.client_amcs in
      let night = λ (xs : List (ClientAmc W)). record db { client_amcs = xs } in
      let first = handle_client_amc_expiry-pass cal s db unique in
      ap (handle_client_amc_expiry cal t) first
      ∙ handle_client_amc_expiry-pass cal t (night rows) (
          UniqueKeys-map amc_id (after_night cal db.client_supports s)
            (after_night-id cal db.client_supports s) db.client_amcs unique)
      ∙ ap night (
          map-twice (after_night cal db.client_supports t) (after_night cal db.client_supports s)
            (after_night cal db.client_supports s)
            (λ a. after_night-again cal db.client_supports s t a same) db.client_amcs)
      ∙ sym first
