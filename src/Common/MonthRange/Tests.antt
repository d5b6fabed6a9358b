-- ===== src/Common/MonthRange/Tests.antt =====
-- The range of months in March (index 2) of 2024.
use nest_js_project.Prelude.{◌≡◌, ◌≤◌, refl, none, some, arith}
use nest_js_project.Common.MonthRange.{resolve_max_month_index, resolve_max_month_index-Bounded}

-- A month that is still to come is cut to the current one, and a past year has all its months.
range_test :
    (resolve_max_month_index (some 7) (some 2024) 2 2024 ≡ 2)
    × (resolve_max_month_index none (some 2023) 2 2024 ≡ 11)
    × (resolve_max_month_index (some 1) (some 2024) 2 2024 ≡ 0)
unfolding resolve_max_month_index
range_test = (refl, refl, refl)

resolve_max_month_index-Bounded_example : resolve_max_month_index (some 7) (some 2024) 2 2024 ≤ 2
resolve_max_month_index-Bounded_example =
    resolve_max_month_index-Bounded (some 7) (some 2024) 2 2024 (ground arith) (ground arith)
