-- ===== src/Scheduler/Amc/Cycle.antt =====
-- apps/scheduler/src/cron/amc-expiry.cron.ts: the month of one contract, once more in
-- the same night.
use nest_js_project.Prelude.{
  ℕ, ◌≡◌, refl, sym, ap, subst, ◌∙◌, true, false, Bool-cases, inl, inr, Option, none, some, List,
  ◌==◌, beq_self, arith,
}
use nest_js_project.Schema.{ClientAmc, ClientSupport}
use nest_js_project.Number.{Number}
use nest_js_project.Scheduler.Amc.{
  Calendar, process_cycle, on_start, update_client_amc_cycle, used_in_cycle, monthly_hours,
  is_processed_this_month, same_month,
}

-- The job runs twice in one night.
pub record SameNight (cal : Calendar) (s t : ℕ) : Type 0 where
  pub same_date : cal.date s ≡ cal.date t
  pub same_month_of : cal.month s ≡ cal.month t
  pub same_year : cal.year s ≡ cal.year t
  pub same_utc_date : cal.utc_date s ≡ cal.utc_date t

is_processed-same :
    (cal : Calendar) (s t : ℕ) (last : Option ℕ)
    → SameNight cal s t
    → is_processed_this_month cal t last ≡ is_processed_this_month cal s last
is_processed-same cal s t none same = refl
is_processed-same cal s t (some l) same = rw (same.same_month_of, same.same_year) refl

same_month_self : (cal : Calendar) (s t : ℕ) → SameNight cal s t → same_month cal s t ≡ true
same_month_self cal s t same =
    rw (same.same_month_of, same.same_year, beq_self (cal.month t), beq_self (cal.year t)) refl

module _ {W : Type 0} ⦃num : Number W⦄ where
  abbrev Again : Calendar → List (ClientSupport W) → ℕ → Option ℕ → ClientAmc W → Type 0
  Again cal supports t start r = on_start cal supports t r start r.last_cycle_processed_at r ≡ r

  skip_other_day :
      (cal : Calendar) (supports : List (ClientSupport W)) (t begin : ℕ) (last : Option ℕ)
      (a row : ClientAmc W)
      → (cal.date t == cal.date begin) ≡ false
      → on_start cal supports t a (some begin) last row ≡ row
  skip_other_day cal supports t begin last a row other = rw other refl

  skip_done :
      (cal : Calendar) (supports : List (ClientSupport W)) (t : ℕ) (start last : Option ℕ)
      (a row : ClientAmc W)
      → is_processed_this_month cal t last ≡ true
      → on_start cal supports t a start last row ≡ row
  skip_done cal supports t none last a row done = refl
  skip_done cal supports t (some begin) last a row done = ground (arith, done)

  processed_now :
      (cal : Calendar) (supports : List (ClientSupport W)) (s begin : ℕ) (last : Option ℕ)
      (a : ClientAmc W)
      → (cal.date s == cal.date begin) ≡ true
      → is_processed_this_month cal s last ≡ false
      → on_start cal supports s a (some begin) last a
        ≡ update_client_amc_cycle s a (used_in_cycle cal supports s a (cal.date begin)) a
  processed_now cal supports s begin last a today fresh = rw (today, fresh) refl

  updated_last :
      (s : ℕ) (a : ClientAmc W) (used : W)
      → (update_client_amc_cycle s a used a).last_cycle_processed_at ≡ some s
  updated_last s a used = elim (Bool-cases (num.lt used (monthly_hours a))) [
    | inl unused ↦ rw unused refl
    | inr used_up ↦ rw used_up refl
  ]

  updated-Again :
      (cal : Calendar) (supports : List (ClientSupport W)) (s t : ℕ) (start : Option ℕ)
      (a : ClientAmc W) (used : W)
      → SameNight cal s t
      → Again cal supports t start (update_client_amc_cycle s a used a)
  updated-Again cal supports s t start a used same =
      let r = update_client_amc_cycle s a used a in
      skip_done cal supports t start r.last_cycle_processed_at r r
        (ap (is_processed_this_month cal t) (updated_last s a used) ∙ same_month_self cal s t same)

  on_start-Again :
      (cal : Calendar) (supports : List (ClientSupport W)) (s t : ℕ) (a : ClientAmc W)
      (start : Option ℕ)
      → SameNight cal s t
      → Again cal supports t start (on_start cal supports s a start a.last_cycle_processed_at a)
  on_start-Again cal supports s t a none same = refl
  on_start-Again cal supports s t a (some begin) same =
      let last = a.last_cycle_processed_at in
      let used = used_in_cycle cal supports s a (cal.date begin) in
      elim (Bool-cases (cal.date s == cal.date begin)) [
        | inl today ↦ elim (Bool-cases (is_processed_this_month cal s last)) [
          | inl done ↦
              subst (Again cal supports t (some begin))
                (sym (skip_done cal supports s (some begin) last a a done))
                (skip_done cal supports t (some begin) last a a
                  (is_processed-same cal s t last same ∙ done))
          | inr fresh ↦
              subst (Again cal supports t (some begin))
                (sym (processed_now cal supports s begin last a today fresh))
                (updated-Again cal supports s t (some begin) a used same)
        ]
        | inr other ↦
            subst (Again cal supports t (some begin))
              (sym (skip_other_day cal supports s begin last a a other))
              (skip_other_day cal supports t begin last a a
                (ap (λ d. d == cal.date begin) (sym same.same_date) ∙ other))
      ]

  on_start-start_date :
      (cal : Calendar) (supports : List (ClientSupport W)) (today : ℕ) (amc : ClientAmc W)
      (start last : Option ℕ) (row : ClientAmc W)
      → (on_start cal supports today amc start last row).start_date ≡ row.start_date
  on_start-start_date cal supports today amc none last row = refl
  on_start-start_date cal supports today amc (some start) last row = ground arith

  on_start-status :
      (cal : Calendar) (supports : List (ClientSupport W)) (today : ℕ) (amc : ClientAmc W)
      (start last : Option ℕ) (row : ClientAmc W)
      → (on_start cal supports today amc start last row).status ≡ row.status
  on_start-status cal supports today amc none last row = refl
  on_start-status cal supports today amc (some start) last row = ground arith

  on_start-end_date :
      (cal : Calendar) (supports : List (ClientSupport W)) (today : ℕ) (amc : ClientAmc W)
      (start last : Option ℕ) (row : ClientAmc W)
      → (on_start cal supports today amc start last row).end_date ≡ row.end_date
  on_start-end_date cal supports today amc none last row = refl
  on_start-end_date cal supports today amc (some start) last row = ground arith

  pub process_cycle-again :
      (cal : Calendar) (supports : List (ClientSupport W)) (s t : ℕ) (a : ClientAmc W)
      → SameNight cal s t
      → process_cycle cal supports t
          (process_cycle cal supports s a a)
          (process_cycle cal supports s a a)
        ≡ process_cycle cal supports s a a
  unfolding process_cycle
  process_cycle-again cal supports s t a same =
      let r = process_cycle cal supports s a a in
      ap (λ start. on_start cal supports t r start r.last_cycle_processed_at r)
        (on_start-start_date cal supports s a a.start_date a.last_cycle_processed_at a)
      ∙ on_start-Again cal supports s t a a.start_date same

  pub process_cycle-status :
      (cal : Calendar) (supports : List (ClientSupport W)) (today : ℕ) (a : ClientAmc W)
      → (process_cycle cal supports today a a).status ≡ a.status
  unfolding process_cycle
  process_cycle-status cal supports today a =
      on_start-status cal supports today a a.start_date a.last_cycle_processed_at a

  pub process_cycle-end_date :
      (cal : Calendar) (supports : List (ClientSupport W)) (today : ℕ) (a : ClientAmc W)
      → (process_cycle cal supports today a a).end_date ≡ a.end_date
  unfolding process_cycle
  process_cycle-end_date cal supports today a =
      on_start-end_date cal supports today a a.start_date a.last_cycle_processed_at a
