-- ===== src/Scheduler/Amc/Pass.antt =====
-- apps/scheduler/src/cron/amc-expiry.cron.ts: the two loops over the contracts as one pass.
use nest_js_project.Prelude.{
  List, ℕ, ◌≡◌, refl, ap, ◌∙◌, Bool-cases, inl, inr, Option, none, some, map, if◌then◌else◌, arith,
  UniqueKeys, UniqueKeys-map, update_each-map, map-twice,
}
use nest_js_project.Schema.{ClientAmc, ClientSupport, is_active_amc, Database}
use nest_js_project.Number.{Number}
use nest_js_project.Scheduler.Amc.{
  Calendar, amc_id, is_expired_candidate, mark_client_amc_expired, expire_client_amcs,
  process_cycle, process_cycles, handle_client_amc_expiry, on_start,
}

module _ {W : Type 0} ⦃num : Number W⦄ where
  -- What the job makes of one contract, without loops and keys: one that has run out expires, and one
  -- that goes on is charged for its month.
  abbrev pub after_night : Calendar → List (ClientSupport W) → ℕ → ClientAmc W → ClientAmc W
  after_night cal supports today a =
      if is_expired_candidate (cal.utc_date today) a
      then mark_client_amc_expired a
      else (if is_active_amc a.status then process_cycle cal supports today a a else a)

  on_start-id :
      (cal : Calendar) (supports : List (ClientSupport W)) (today : ℕ) (amc : ClientAmc W)
      (start last : Option ℕ) (row : ClientAmc W)
      → (on_start cal supports today amc start last row).id ≡ row.id
  on_start-id cal supports today amc none last row = refl
  on_start-id cal supports today amc (some start) last row = ground arith

  pub process_cycle-id :
      (cal : Calendar) (supports : List (ClientSupport W)) (today : ℕ) (amc row : ClientAmc W)
      → (process_cycle cal supports today amc row).id ≡ row.id
  unfolding process_cycle
  process_cycle-id cal supports today amc row =
      on_start-id cal supports today amc amc.start_date amc.last_cycle_processed_at row

  abbrev expired_of : Calendar → ℕ → ClientAmc W → ClientAmc W
  expired_of cal today a =
      if is_expired_candidate (cal.utc_date today) a then mark_client_amc_expired a else a

  expired_of-id :
      (cal : Calendar) (today : ℕ) (a : ClientAmc W) → (expired_of cal today a).id ≡ a.id
  unfolding mark_client_amc_expired
  expired_of-id cal today a = elim (Bool-cases (is_expired_candidate (cal.utc_date today) a)) [
    | inl over ↦ rw over refl
    | inr goes_on ↦ rw goes_on refl
  ]

  passes :
      (cal : Calendar) (supports : List (ClientSupport W)) (today : ℕ) (a : ClientAmc W)
      → (if is_active_amc (expired_of cal today a).status
          then process_cycle cal supports today (expired_of cal today a) (expired_of cal today a)
          else expired_of cal today a)
        ≡ after_night cal supports today a
  unfolding mark_client_amc_expired
  passes cal supports today a = elim (Bool-cases (is_expired_candidate (cal.utc_date today) a)) [
    | inl over ↦ rw over refl
    | inr goes_on ↦ rw goes_on refl
  ]

  -- The nightly job on the contracts, which finds rows and updates each by its key, comes to the same
  -- as one pass over the table, where the keys are unique.
  pub handle_client_amc_expiry-pass :
      (cal : Calendar) (today : ℕ) (db : Database W)
      → UniqueKeys amc_id db.client_amcs
      → handle_client_amc_expiry cal today db
        ≡ record db { client_amcs = map (after_night cal db.client_supports today) db.client_amcs }
  unfolding handle_client_amc_expiry expire_client_amcs process_cycles mark_client_amc_expired
  handle_client_amc_expiry-pass cal today db unique =
      let rows = db.client_amcs in
      let cycle = λ (a : ClientAmc W).
        if is_active_amc a.status then process_cycle cal db.client_supports today a a else a in
      ap (λ xs. record db { client_amcs = xs })
        (ap (process_cycles cal db.client_supports today) (
            update_each-map amc_id (λ a. mark_client_amc_expired)
              (is_expired_candidate (cal.utc_date today)) (λ r x. refl) rows unique)
          ∙ update_each-map amc_id (process_cycle cal db.client_supports today)
              (λ a. is_active_amc a.status) (process_cycle-id cal db.client_supports today)
              (map (expired_of cal today) rows)
              (UniqueKeys-map amc_id (expired_of cal today) (expired_of-id cal today) rows unique)
          ∙ map-twice cycle (expired_of cal today) (after_night cal db.client_supports today)
              (passes cal db.client_supports today) rows)
