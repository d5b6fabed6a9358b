-- ===== src/Common/MonthRange.antt =====
-- libs/common/utils/month-range.util.ts: how many months of a year an analysis covers. A month that is
-- given is a number from 1, and 0 is taken as none.
mod Tests
use nest_js_project.Prelude.{
  ℕ, ◌≡◌, ◌≤◌, ◌-◌, refl, sym, subst, Bool, true, false, ◌&&◌, not, Bool-cases, inl, inr, Option,
  none, some, if◌then◌else◌, ◌==◌, ltb, is_some, get_or_else, arith,
}

-- `currentYear === year`.
abbrev pub is_year : ℕ → Option ℕ → Bool
is_year current_year none = false
is_year current_year (some year) = current_year == year

-- A number that may be absent is truthy if it is there and not zero.
abbrev pub is_truthy_number : Option ℕ → Bool
is_truthy_number none = false
is_truthy_number (some n) = not (n == 0)

-- `currentMonth < month - 1`, where month 0 leads to -1.
abbrev pub is_after_current : Option ℕ → ℕ → Bool
is_after_current none current_month = false
is_after_current (some month) current_month = ltb current_month (month - 1)

abbrev pub month_data : Option ℕ → Option ℕ → ℕ → ℕ → ℕ
month_data month year current_month current_year =
    if is_truthy_number month
    then get_or_else month 0 - 1
    else if is_year current_year year
    then current_month
    else if is_truthy_number year
    then 11
    else current_month

unfoldable pub resolve_max_month_index : Option ℕ → Option ℕ → ℕ → ℕ → ℕ
resolve_max_month_index month year current_month current_year =
    if is_year current_year year && is_after_current month current_month
    then current_month
    else month_data month year current_month current_year

-- Months from 1 to 12, or none.
abbrev pub IsMonth : Option ℕ → Type 0
IsMonth none = Unit
IsMonth (some month) = month ≤ 12

month_data-index :
    (month year : Option ℕ) (current_month current_year : ℕ)
    → IsMonth month
    → current_month ≤ 11
    → month_data month year current_month current_year ≤ 11
month_data-index none none current_month current_year m c = c
month_data-index none (some y) current_month current_year m c = ground arith
month_data-index (some k) none current_month current_year m c = ground arith
month_data-index (some k) (some y) current_month current_year m c = ground arith

month_data-current :
    (month : Option ℕ) (current_month : ℕ) (year : Option ℕ) (current_year : ℕ)
    → is_year current_year year ≡ true
    → is_after_current month current_month ≡ false
    → month_data month year current_month current_year ≤ current_month
month_data-current none current_month year current_year same earlier = rw same (ground arith)
month_data-current (some k) current_month year current_year same earlier =
    rw same (ground (arith, earlier))

-- For a month from 1 to 12 or none, and a current month from 0 to 11, the last month's index is at
-- most 11, and in the current year at most the current month.
pub resolve_max_month_index-Bounded :
    (month year : Option ℕ) (current_month current_year : ℕ)
    → IsMonth month
    → current_month ≤ 11
    → resolve_max_month_index month year current_month current_year
      ≤ (if is_year current_year year then current_month else 11)
unfolding resolve_max_month_index
resolve_max_month_index-Bounded month year current_month current_year m c =
    elim (Bool-cases (is_year current_year year)) [
      | inl same ↦ elim (Bool-cases (is_after_current month current_month)) [
        | inl later ↦ rw (same, later) (ground arith)
        | inr earlier ↦
            subst
              (λ b.
                (if b && is_after_current month current_month
                  then current_month
                  else month_data month year current_month current_year)
                ≤ (if b then current_month else 11))
              (sym same)
              (rw earlier (month_data-current month current_month year current_year same earlier))
      ]
      | inr other ↦
          subst
            (λ b.
              (if b && is_after_current month current_month
                then current_month
                else month_data month year current_month current_year)
              ≤ (if b then current_month else 11))
            (sym other) (month_data-index month year current_month current_year m c)
    ]
