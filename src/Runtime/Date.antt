-- ===== src/Runtime/Date.antt =====
-- runtime/hcrt.c: the calendar of `%D`.
use hlang.Base.{ℕ, ◌+◌, ◌-◌, ◌*◌, ◌/◌, ◌%◌, ltb, leb, if◌then◌else◌}
use hlang.Base.Int.{ℤ, pos, negsuc, ◌+ℤ◌, ◌-ℤ◌, ◌*ℤ◌}

pub record Civil : Type 0 where
  pub year : ℤ
  pub month : ℕ
  pub day : ℕ

-- the day of an era of 400 years, each from March on
unfoldable pub day_of_era : ℤ → ℕ → Civil
unfolding ◌+ℤ◌ ◌*ℤ◌
day_of_era era doe =
    let yoe = (doe - doe / 1460 + doe / 36524 - doe / 146096) / 365 in
    let y = pos yoe +ℤ era *ℤ pos 400 in
    let doy = doe - (365 * yoe + yoe / 4 - yoe / 100) in
    let mp = (5 * doy + 2) / 153 in
    let d = doy - (153 * mp + 2) / 5 + 1 in
    let m = if ltb mp 10 then mp + 3 else mp - 9 in
    record { year = if leb m 2 then y +ℤ pos 1 else y; month = m; day = d }

-- the calendar in `fmt_date`, for a number of days since the first of January of the year 0
unfoldable pub civil_day : ℤ → Civil
unfolding ◌+ℤ◌ ◌-ℤ◌ day_of_era
civil_day days =
    let z = days -ℤ pos 719528 +ℤ pos 719468 in
    elim z [
      | pos n ↦ day_of_era (pos (n / 146097)) (n % 146097)
      | negsuc n ↦
          let k = (n + 1 + 146096) / 146097 in day_of_era (pos 0 -ℤ pos k) (k * 146097 - (n + 1))
    ]
