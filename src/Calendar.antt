-- ===== src/Calendar.antt =====
-- The month of a date, `getUTCFullYear` and `getUTCMonth`, in the proleptic Gregorian calendar that
-- JavaScript documents. Days are counted from 1 March of the year 0.
use automatebro.Prelude.{ℕ, ◌+◌, ◌-◌, ◌*◌, ◌/◌, ◌%◌, ◌≡◌, refl, ltb, leb, if◌then◌else◌}
use automatebro.Action.{Month}

unfoldable pub month_of : ℕ → Month
month_of ms =
    let day = ms / 86400000 + 719468 in
    let era = day / 146097 in
    let day_of_era = day % 146097 in
    let year_of_era =
      (day_of_era - day_of_era / 1460 + day_of_era / 36524 - day_of_era / 146096) / 365 in
    let day_of_year = day_of_era - (365 * year_of_era + year_of_era / 4 - year_of_era / 100) in
    let shifted = (5 * day_of_year + 2) / 153 in
    let month = if ltb shifted 10 then shifted + 3 else shifted - 9 in
    (year_of_era + era * 400 + (if leb month 2 then 1 else 0), month)

month_of_epoch : month_of 0 ≡ (1970, 1)
unfolding month_of
month_of_epoch = refl

month_of_leap_day : month_of 951782400000 ≡ (2000, 2)
unfolding month_of
month_of_leap_day = refl

month_of_new_year : month_of 1767225600000 ≡ (2026, 1)
unfolding month_of
month_of_new_year = refl
