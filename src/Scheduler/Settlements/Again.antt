-- ===== src/Scheduler/Settlements/Again.antt =====
-- What a run of the settlement job adds, and what a second run adds to that:
-- apps/scheduler/src/cron/cpo-settlement.cron.ts.
use nest_js_project.Prelude.{
  ℕ, ◌≡◌, refl, ap, sym, ◌∙◌, Bool, Bool-cases, inl, inr, true, false, ◌&&◌, none, some, List, [],
  ◌∷◌, ◌++◌, ◌==◌, All, All-append, holds,
}
use mathlib.Core.List.{append_assoc, append-nil}
use nest_js_project.Schema.{DeviceTransaction, Charger, Vendor, CpoSettlement, Database}
use nest_js_project.Number.{Number}
use nest_js_project.Scheduler.Settlements.{
  SettlementRuntime, find_chargers_by_vendor, find_successful_transactions,
  find_existing_settlement, total_from, transaction_fee_perc, transaction_fee, net_payble,
  is_nothing_due, new_settlement, on_transactions, settle_charger, settle_chargers, settle_vendors,
  handle_generate_settlements,
}
use nest_js_project.Scheduler.Settlements.Due.{due_of, due_of_chargers, due_of_vendors}

three_and_false : (a b c : Bool) → a && b && c && false ≡ false
three_and_false true true true = refl
three_and_false true true false = refl
three_and_false true false c = refl
three_and_false false b c = refl

module _ {W : Type 0} where
  -- No settlement in the table ends at the instant that the job computes.
  abbrev pub EndsElsewhere : ℕ → List (CpoSettlement W) → Type 0
  EndsElsewhere to ss = All (λ s. holds s.to_date (some to) ≡ false) ss

  none_found :
      (vendor_id charger_id from to : ℕ) (ss : List (CpoSettlement W))
      → EndsElsewhere to ss
      → find_existing_settlement vendor_id charger_id from to ss ≡ none
  unfolding find_existing_settlement
  none_found vendor_id charger_id from to [] h = refl
  none_found vendor_id charger_id from to (s ∷ ss) (first, rest) =
      rw
        (
          first,
          three_and_false (s.vendor_id == vendor_id) (s.charger_id == charger_id)
              (holds s.from_date (some from)),
        )
        (none_found vendor_id charger_id from to ss rest)

module _ {W : Type 0} ⦃num : Number W⦄ (rt : SettlementRuntime W)
    (rounded : rt.datetime rt.to_date == rt.to_date ≡ false) where
  due_of-EndsElsewhere :
      (vendor : Vendor) (charger : Charger) (ts : List (DeviceTransaction W))
      → EndsElsewhere rt.to_date (due_of rt vendor charger ts)
  unfolding new_settlement
  due_of-EndsElsewhere vendor charger [] = tt
  due_of-EndsElsewhere vendor charger (t ∷ ts) =
      let total = total_from (num.of_ℕ 0) (t ∷ ts) in
      let net = net_payble total (transaction_fee (transaction_fee_perc rt vendor) total) in
      elim (Bool-cases (is_nothing_due total net)) [
        | inl nothing ↦ rw nothing tt
        | inr something ↦ rw something (rounded, tt)
      ]

  due_of_chargers-EndsElsewhere :
      (db : Database W) (vendor : Vendor) (cs : List Charger)
      → EndsElsewhere rt.to_date (due_of_chargers rt db vendor cs)
  due_of_chargers-EndsElsewhere db vendor [] = tt
  due_of_chargers-EndsElsewhere db vendor (c ∷ cs) =
      let ts = find_successful_transactions db c.id rt.from_date rt.to_date in
      All-append (λ s. holds s.to_date (some rt.to_date) ≡ false) (due_of rt vendor c ts)
        (due_of_chargers rt db vendor cs) (due_of-EndsElsewhere vendor c ts)
        (due_of_chargers-EndsElsewhere db vendor cs)

  due_of_vendors-EndsElsewhere :
      (db : Database W) (vs : List Vendor) → EndsElsewhere rt.to_date (due_of_vendors rt db vs)
  due_of_vendors-EndsElsewhere db [] = tt
  due_of_vendors-EndsElsewhere db (v ∷ vs) =
      let cs = find_chargers_by_vendor db v.id in
      All-append (λ s. holds s.to_date (some rt.to_date) ≡ false) (due_of_chargers rt db v cs)
        (due_of_vendors rt db vs) (due_of_chargers-EndsElsewhere db v cs)
        (due_of_vendors-EndsElsewhere db vs)

  on_transactions-due :
      (vendor : Vendor) (charger : Charger) (ts : List (DeviceTransaction W))
      (ss : List (CpoSettlement W))
      → EndsElsewhere rt.to_date ss
      → on_transactions rt vendor charger ts ss ≡ ss ++ due_of rt vendor charger ts
  on_transactions-due vendor charger [] ss h = sym (append-nil ss)
  on_transactions-due vendor charger (t ∷ ts) ss h =
      let total = total_from (num.of_ℕ 0) (t ∷ ts) in
      let net = net_payble total (transaction_fee (transaction_fee_perc rt vendor) total) in
      elim (Bool-cases (is_nothing_due total net)) [
        | inl nothing ↦ rw nothing (sym (append-nil ss))
        | inr something ↦
            rw (something, none_found vendor.id charger.id rt.from_date rt.to_date ss h) refl
      ]

  settle_chargers-due :
      (db : Database W) (vendor : Vendor) (cs : List Charger) (ss : List (CpoSettlement W))
      → EndsElsewhere rt.to_date ss
      → settle_chargers rt db vendor cs ss ≡ ss ++ due_of_chargers rt db vendor cs
  unfolding settle_chargers settle_charger
  settle_chargers-due db vendor [] ss h = sym (append-nil ss)
  settle_chargers-due db vendor (c ∷ cs) ss h =
      let ts = find_successful_transactions db c.id rt.from_date rt.to_date in
      let due = due_of rt vendor c ts in
      ap (settle_chargers rt db vendor cs) (on_transactions-due vendor c ts ss h)
      ∙ settle_chargers-due db vendor cs (ss ++ due) (
          All-append (λ s. holds s.to_date (some rt.to_date) ≡ false) ss due h
            (due_of-EndsElsewhere vendor c ts))
      ∙ append_assoc ss due (due_of_chargers rt db vendor cs)

  settle_vendors-due :
      (db : Database W) (vs : List Vendor) (ss : List (CpoSettlement W))
      → EndsElsewhere rt.to_date ss
      → settle_vendors rt db vs ss ≡ ss ++ due_of_vendors rt db vs
  unfolding settle_vendors
  settle_vendors-due db [] ss h = sym (append-nil ss)
  settle_vendors-due db (v ∷ vs) ss h =
      let cs = find_chargers_by_vendor db v.id in
      let due = due_of_chargers rt db v cs in
      ap (settle_vendors rt db vs) (settle_chargers-due db v cs ss h)
      ∙ settle_vendors-due db vs (ss ++ due) (
          All-append (λ s. holds s.to_date (some rt.to_date) ≡ false) ss due h
            (due_of_chargers-EndsElsewhere db v cs))
      ∙ append_assoc ss due (due_of_vendors rt db vs)

-- Where the column does not keep the instant at which the day ends, which a DATETIME without fractions
-- does not, and no settlement in the table ends there, the job adds what each vendor's chargers took in,
-- and a second run for the same day adds the same settlements once more: the search for an existing
-- one finds nothing.
pub settled_again :
    {W : Type 0} ⦃num : Number W⦄ (rt : SettlementRuntime W) (db : Database W)
    → rt.datetime rt.to_date == rt.to_date ≡ false
    → EndsElsewhere rt.to_date db.cpo_settlements
    → let once = handle_generate_settlements rt db in
      let due = due_of_vendors rt db db.vendors in
      (once.cpo_settlements ≡ db.cpo_settlements ++ due)
      × ((handle_generate_settlements rt once).cpo_settlements ≡ (db.cpo_settlements ++ due) ++ due)
unfolding handle_generate_settlements settle_vendors settle_chargers settle_charger
    find_successful_transactions
settled_again rt db rounded elsewhere =
    let due = due_of_vendors rt db db.vendors in
    let first = settle_vendors-due rt rounded db db.vendors db.cpo_settlements elsewhere in
    (
      first,
      ap (settle_vendors rt db db.vendors) first
          ∙ settle_vendors-due rt rounded db db.vendors (db.cpo_settlements ++ due) (
              All-append (λ s. holds s.to_date (some rt.to_date) ≡ false) db.cpo_settlements due
                elsewhere (due_of_vendors-EndsElsewhere rt rounded db db.vendors)),
    )
