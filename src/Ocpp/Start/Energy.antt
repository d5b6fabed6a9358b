-- ===== src/Ocpp/Start/Energy.antt =====
-- What a session may take: `calculateEnergy` of v16/handlers/start-transaction.handler.ts, and
-- common/utils/amount-to-energy.util.ts.
use nest_js_project.Prelude.{
  ℕ, Bool, true, ◌&&◌, Option, none, some, List, [], ◌∷◌, if◌then◌else◌, find_one, find_all, holds,
}
use nest_js_project.Schema.{DeviceTransaction, Wallet, Tariff, ClientDetail, Database}
use nest_js_project.Ocpp.Raw.{ChargerKeys, undefined}
use nest_js_project.Number.{Number, number_or_zero, as_number}

-- Whose open transactions count against the wallet.
abbrev pub same_payer : {W : Type 0} → Option ℕ → Option ℕ → DeviceTransaction W → Bool
same_payer (some user_id) fleet_id r = holds r.user_id (some user_id)
same_payer none (some fleet_id) r = holds r.fleet_id (some fleet_id)
same_payer none none r = true

pub record EnergyBudget (W : Type 0) : Type 0 where
  pub final_usable_amount : W
  pub energy : W
  pub usable_amount : W

module _ {W : Type 0} ⦃num : Number W⦄ where
  open num use {of_ℕ, add, sub, mul, div, lt, le, to_fixed, parse_int}

  -- `parseFloat(String(amount))` is the amount.
  unfoldable pub amount_to_energy_conversion : W → W → W → Bool → W
  amount_to_energy_conversion amount gst price_per_kw is_amount_to_kw =
      let gst_multiplier = add (of_ℕ 1) (div gst (of_ℕ 100)) in
      if is_amount_to_kw
      then to_fixed 3 (div (div amount gst_multiplier) price_per_kw)
      else to_fixed 3 (mul (mul amount price_per_kw) gst_multiplier)

  abbrev plus_amount : Option W → W → W
  plus_amount none sum = sum
  plus_amount (some a) sum = add a sum

  -- `SUM(dt.maxAmount)`, which skips NULL; of no rows it is NULL, which counts as 0.
  unfoldable pub sum_of_max_amounts : List (DeviceTransaction W) → W
  sum_of_max_amounts [] = of_ℕ 0
  sum_of_max_amounts (r ∷ rs) = plus_amount r.max_amount (sum_of_max_amounts rs)

  -- What the wallet has left when all open transactions take their maximum.
  unfoldable pub remaining_balance_of : Database W → Option ℕ → Option ℕ → Wallet W → W
  unfolding sum_of_max_amounts
  remaining_balance_of db user_id fleet_id wallet = sub (as_number wallet.balance) (
      sum_of_max_amounts (
        find_all (λ r. holds r.status (some 0) && same_payer user_id fleet_id r)
          db.device_transactions))

  abbrev pub max_allowed_amount : W → W → W
  max_allowed_amount max_amount wallet_amount =
      if lt (of_ℕ 0) max_amount && lt max_amount wallet_amount then max_amount else wallet_amount

  abbrev pub smaller : W → W → W
  smaller a b = if lt a b then a else b

  -- `clientDetails?.preConvDeductionAmount`, where the key of the row is `cd_preConvDeductionAmount`.
  abbrev raw_deduction : Option (ClientDetail W) → Option W
  raw_deduction none = none
  raw_deduction (some d) = undefined

  abbrev pub deduction_of : Option (ClientDetail W) → W
  deduction_of details = number_or_zero (raw_deduction details)

  abbrev pub less_deduction : W → W → W
  less_deduction deduction usable = if lt (of_ℕ 0) deduction then sub usable deduction else usable

  -- Less than one whole unit of money is no budget.
  abbrev pub budget_of : W → W → Tariff W → EnergyBudget W
  budget_of usable final price =
      if le (parse_int usable) (of_ℕ 0)
      then record { final_usable_amount = of_ℕ 0; energy = of_ℕ 0; usable_amount = usable }
      else record {
        final_usable_amount = final;
        energy =
            amount_to_energy_conversion final (number_or_zero price.gst)
              (number_or_zero price.price) true;
        usable_amount = usable;
      }

  unfoldable pub calculate_energy :
      Database W → ChargerKeys → Option ℕ → Option ℕ → Wallet W → W → Tariff W → EnergyBudget W
  calculate_energy db charger user_id fleet_id wallet max_amount price =
      let usable =
        smaller (remaining_balance_of db user_id fleet_id wallet)
          (max_allowed_amount max_amount (as_number wallet.balance)) in
      let deduction =
        deduction_of
          (find_one (λ d. holds (some d.client_id) charger.client_id) db.client_details) in
      budget_of usable (less_deduction deduction usable) price
