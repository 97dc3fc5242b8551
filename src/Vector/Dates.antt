-- ===== src/Vector/Dates.antt =====
-- src/vector/helpers.rs: dates. An error is `none`: the only one here is `InvalidValue`.
-- The fields are what two or four digits can spell, so a year is never negative when it is read.
pub mod Calendar
use rinha_rust_tree.Prelude.{
  ℕ, suc, ◌+◌, ◌-◌, ◌*◌, ◌/◌, ◌%◌, ◌^◌, ◌||◌, Option, none, some, ltb, leb, if◌then◌else◌, length,
  get_or,
}
use rinha_rust_tree.Prelude.Int.{ℤ, pos, negsuc, sub_ℕ, ◌+ℤ◌}
use rinha_rust_tree.Http.Bytes.{Bytes}
use rinha_rust_tree.Http.Parser.{◌>>=◌}

-- `s[i].wrapping_sub(b'0')`
abbrev pub digit : Bytes → ℕ → ℕ
digit s i = (get_or s i 0 + 208) % 256

unfoldable pub parse2 : Bytes → ℕ → Option ℕ
parse2 s offset =
    let a = digit s offset in
    let b = digit s (offset + 1) in
    if ltb (length s) (offset + 2)
    then none
    else if ltb 9 a || ltb 9 b
    then none
    else some (a * 10 + b)

unfoldable pub parse4 : Bytes → ℕ → Option ℕ
parse4 s offset =
    let a = digit s offset in
    let b = digit s (offset + 1) in
    let c = digit s (offset + 2) in
    let d = digit s (offset + 3) in
    if ltb (length s) (offset + 4)
    then none
    else if ltb 9 a || ltb 9 b || ltb 9 c || ltb 9 d
    then none
    else some (a * 1000 + b * 100 + c * 10 + d)

unfoldable pub parse_mcc : Bytes → ℕ
parse_mcc mcc =
    let a = digit mcc 0 in
    let b = digit mcc 1 in
    let c = digit mcc 2 in
    let d = digit mcc 3 in
    if ltb (length mcc) 4 || ltb 4 (length mcc)
    then 0
    else if ltb 9 a || ltb 9 b || ltb 9 c || ltb 9 d
    then 0
    else a * 1000 + b * 100 + c * 10 + d

-- `(if y >= 0 { y } else { y - 399 }) / 400`, which truncates: the era and the year of it.
unfoldable pub era_of : ℤ → ℤ
era_of (pos y) = pos (y / 400)
era_of (negsuc y) = sub_ℕ 0 ((y + 400) / 400)

unfoldable pub year_of_era : ℤ → ℕ
year_of_era (pos y) = y - y / 400 * 400
year_of_era (negsuc y) = (y + 400) / 400 * 400 - suc y

-- `doy`, a u32
unfoldable pub day_of_year : ℕ → ℕ → ℕ
day_of_year m d =
    let shifted_month = if ltb 2 m then m - 3 else m + 9 in
    ((153 * shifted_month + 2) / 5 + d + (2 ^ 32 - 1)) % 2 ^ 32

unfoldable pub day_of_era : ℕ → ℕ → ℕ
day_of_era yoe doy = (yoe * 365 + yoe / 4 - yoe / 100 + doy) % 2 ^ 32

-- `era * 146_097 + doe - 719_468`
unfoldable pub days_of_era : ℤ → ℕ → ℤ
days_of_era (pos era) doe = sub_ℕ (era * 146097 + doe) 719468
days_of_era (negsuc era) doe = sub_ℕ doe (suc era * 146097 + 719468)

-- what follows the shift of the year
unfoldable pub days_of_year : ℤ → ℕ → ℤ
unfolding era_of year_of_era day_of_era days_of_era
days_of_year y doy = days_of_era (era_of y) (day_of_era (year_of_era y) doy)

unfoldable pub days_from_civil : ℕ → ℕ → ℕ → ℤ
unfolding days_of_year day_of_year
days_from_civil year m d =
    days_of_year (if leb m 2 then sub_ℕ year 1 else pos year) (day_of_year m d)

-- The remainder of `(days + 3) % 7`, which has the sign of the dividend.
unfoldable pub day_of_week_of : ℤ → ℤ
day_of_week_of (pos days) = pos (days % 7)
day_of_week_of (negsuc days) = sub_ℕ 0 (suc days % 7)

pub record ParsedDateTime : Type 0 where
  pub epoch_minute : ℤ
  pub hour : ℕ
  pub day_of_week : ℤ

-- `days * 1_440`
abbrev pub minutes_of : ℤ → ℤ
minutes_of (pos days) = pos (days * 1440)
minutes_of (negsuc days) = sub_ℕ 0 (suc days * 1440)

unfoldable pub parse_datetime : Bytes → Option ParsedDateTime
unfolding parse2 parse4 days_from_civil day_of_week_of
parse_datetime iso = if ltb (length iso) 16 then none else (do
  y ← parse4 iso 0
  m ← parse2 iso 5
  d ← parse2 iso 8
  hh ← parse2 iso 11
  mm ← parse2 iso 14
  let days = days_from_civil y m d
  some (record {
    epoch_minute = minutes_of days +ℤ pos (hh * 60 + mm);
    hour = hh;
    day_of_week = day_of_week_of (days +ℤ pos 3);
  }))
