-- ===== src/Tests/Vector.antt =====
-- src/vector/helpers.rs: dates.
use rinha_rust_tree.Prelude.{◌≡◌, refl, some, arith}
use rinha_rust_tree.Prelude.Int.{pos, ◌+ℤ◌}
use rinha_rust_tree.Http.Bytes.{codes}
use rinha_rust_tree.Vector.Dates.{days_from_civil, parse_datetime}
use rinha_rust_tree.Vector.Dates.Calendar.{
  next_day, last_day, days, IsDate, days_from_civil-next_day,
}

epoch : days_from_civil 1970 1 1 ≡ pos 0
unfolding days_from_civil
epoch = refl

leap_day-IsDate : IsDate 2024 2 29
unfolding last_day
leap_day-IsDate = (omega arith, omega arith, omega arith, omega arith, omega arith)

days_from_civil-next_day_example : days (next_day 2024 2 29) ≡ days_from_civil 2024 2 29 +ℤ pos 1
days_from_civil-next_day_example = days_from_civil-next_day 2024 2 29 leap_day-IsDate

leap_day_passes : next_day 2024 2 29 ≡ (2024, 3, 1)
unfolding next_day
leap_day_passes = refl

-- the first day of 2026 is a Thursday, day 3 of a week from Monday on
new_year :
    parse_datetime (codes "2026-01-01T10:20:30Z")
    ≡ some (record { epoch_minute = pos 29454380; hour = 10; day_of_week = pos 3 })
unfolding parse_datetime ◌+ℤ◌
new_year = refl
