-- ===== src/Vector/Dates/Calendar.antt =====
-- src/vector/helpers.rs: `days_from_civil` counts the days of the Gregorian calendar.
use rinha_rust_tree.Prelude.{
  ℕ, zero, suc, ◌+◌, ◌-◌, ◌*◌, ◌/◌, ◌%◌, ◌≤◌, ◌<◌, ◌≡◌, sym, ap, ◌∙◌, Bool, true, false, not, ◌&&◌,
  ◌||◌, ltb, leb, ◌==◌, if◌then◌else◌, arith, Bool-cases, inl, inr, ltb→lt, ltb-false,
}
use rinha_rust_tree.Prelude.Int.{ℤ, pos, sub_ℕ, ◌+ℤ◌}
use rinha_rust_tree.Vector.Dates.{
  days_of_year, era_of, year_of_era, day_of_year, day_of_era, days_of_era, days_from_civil,
}

abbrev pub is_leap : ℕ → Bool
is_leap y = (y % 4 == 0) && (not (y % 100 == 0) || (y % 400 == 0))

unfoldable pub last_day : ℕ → ℕ → ℕ
last_day y m =
    if m == 2
    then (if is_leap y then 29 else 28)
    else if (m == 4) || (m == 6) || (m == 9) || (m == 11)
    then 30
    else 31

-- The days before the first of March of year `y`, from that of year 0 on.
unfoldable day_count : ℕ → ℕ
day_count y = let yoe = y - y / 400 * 400 in y / 400 * 146097 + (yoe * 365 + yoe / 4 - yoe / 100)

day_count-leap : (y : ℕ) → is_leap (suc y) ≡ true → day_count (suc y) ≡ day_count y + 366
unfolding day_count
day_count-leap y h = ground arith

day_count-common : (y : ℕ) → is_leap (suc y) ≡ false → day_count (suc y) ≡ day_count y + 365
unfolding day_count
day_count-common y h = ground arith

sub_ℕ-suc : (a b : ℕ) → sub_ℕ (suc a) b ≡ sub_ℕ a b +ℤ pos 1
unfolding ◌+ℤ◌
sub_ℕ-suc a b = ground arith

day_of_era_lem :
    (yoe doy : ℕ)
    → yoe < 400
    → doy < 400
    → day_of_era yoe doy ≡ yoe * 365 + yoe / 4 - yoe / 100 + doy
unfolding day_of_era
day_of_era_lem yoe doy h g = omega arith

era_lem : (y doy : ℕ) → doy < 400 → days_of_year (pos y) doy ≡ sub_ℕ (day_count y + doy) 719468
unfolding days_of_year era_of year_of_era days_of_era day_count
era_lem y doy h =
    ap (λ n. sub_ℕ n 719468) (omega (arith, day_of_era_lem (y - y / 400 * 400) doy (omega arith) h))

doy_small : (m d : ℕ) → 1 ≤ m → m ≤ 12 → 1 ≤ d → d ≤ 31 → day_of_year m d < 400
unfolding day_of_year
doy_small m d a b c e = ground arith

doy_suc :
    (m d : ℕ) → 1 ≤ m → m ≤ 12 → 1 ≤ d → d ≤ 31 → day_of_year m (suc d) ≡ suc (day_of_year m d)
unfolding day_of_year
doy_suc m d a b c e = ground arith

-- The day's number, from the first of March of year 0 on.
unfoldable number : ℕ → ℕ → ℕ → ℕ
number y m d = day_count (if leb m 2 then y - 1 else y) + day_of_year m d

shifted :
    (y m : ℕ) → 1 ≤ y → (if leb m 2 then sub_ℕ y 1 else pos y) ≡ pos (if leb m 2 then y - 1 else y)
shifted y m h = ground arith

days_from_civil-number :
    (y m d : ℕ)
    → 1 ≤ y
    → 1 ≤ m
    → m ≤ 12
    → 1 ≤ d
    → d ≤ 31
    → days_from_civil y m d ≡ sub_ℕ (number y m d) 719468
unfolding days_from_civil number
days_from_civil-number y m d a b c e f =
    ap (λ z. days_of_year z (day_of_year m d)) (shifted y m a)
    ∙ era_lem (if leb m 2 then y - 1 else y) (day_of_year m d) (doy_small m d b c e f)

-- a date of the Gregorian calendar, from year 1 on
abbrev pub IsDate : ℕ → ℕ → ℕ → Type 0
IsDate y m d = (1 ≤ y) × (1 ≤ m) × (m ≤ 12) × (1 ≤ d) × (d ≤ last_day y m)

last_day-ge : (y m : ℕ) → 1 ≤ last_day y m
unfolding last_day
last_day-ge y m = ground arith

last_day-le : (y m : ℕ) → last_day y m ≤ 31
unfolding last_day
last_day-le y m = ground arith

number-day : (y m d : ℕ) → 1 ≤ m → m ≤ 12 → 1 ≤ d → d < 31 → number y m (suc d) ≡ suc (number y m d)
unfolding number
number-day y m d b c e f = omega (arith, doy_suc m d b c e (omega arith))

number-month :
    (y m : ℕ) → 1 ≤ y → 1 ≤ m → m ≤ 11 → number y (suc m) 1 ≡ suc (number y m (last_day y m))
unfolding number last_day day_of_year day_count
number-month y zero a b c = absurd (omega arith)
number-month y (suc zero) a b c = omega arith
number-month (suc y) (suc (suc zero)) a b c = elim (Bool-cases (is_leap (suc y))) [
  | inl leap ↦ rw (leap, last_day) (omega (arith, day_count-leap y leap))
  | inr common ↦ rw (common, last_day) (omega (arith, day_count-common y common))
]
number-month zero (suc (suc zero)) a b c = absurd (omega arith)
number-month y (suc (suc (suc zero))) a b c = omega arith
number-month y (suc (suc (suc (suc zero)))) a b c = omega arith
number-month y (suc (suc (suc (suc (suc zero))))) a b c = omega arith
number-month y (suc (suc (suc (suc (suc (suc zero)))))) a b c = omega arith
number-month y (suc (suc (suc (suc (suc (suc (suc zero))))))) a b c = omega arith
number-month y (suc (suc (suc (suc (suc (suc (suc (suc zero)))))))) a b c = omega arith
number-month y (suc (suc (suc (suc (suc (suc (suc (suc (suc zero))))))))) a b c = omega arith
number-month y (suc (suc (suc (suc (suc (suc (suc (suc (suc (suc zero)))))))))) a b c = omega arith
number-month y (suc (suc (suc (suc (suc (suc (suc (suc (suc (suc (suc zero))))))))))) a b c =
    omega arith
number-month y (suc (suc (suc (suc (suc (suc (suc (suc (suc (suc (suc (suc m)))))))))))) a b c =
    absurd (omega arith)

number-year : (y : ℕ) → 1 ≤ y → number (suc y) 1 1 ≡ suc (number y 12 31)
unfolding number day_of_year day_count
number-year y a = omega arith

-- the day after a date
unfoldable pub next_day : ℕ → ℕ → ℕ → ℕ × ℕ × ℕ
unfolding last_day
next_day y m d =
    if ltb d (last_day y m)
    then (y, m, suc d)
    else if ltb m 12
    then (y, suc m, 1)
    else (suc y, 1, 1)

abbrev pub days : ℕ × ℕ × ℕ → ℤ
days (y, m, d) = days_from_civil y m d

days-suc :
    (y m d y' m' d' : ℕ)
    → IsDate y m d
    → IsDate y' m' d'
    → number y' m' d' ≡ suc (number y m d)
    → days_from_civil y' m' d' ≡ days_from_civil y m d +ℤ pos 1
days-suc y m d y' m' d' (a, b, c, e, f) (a', b', c', e', f') h =
    days_from_civil-number y' m' d' a' b' c' e' (omega (arith, last_day-le y' m'))
    ∙ ap (λ n. sub_ℕ n 719468) h
    ∙ sub_ℕ-suc (number y m d) 719468
    ∙ ap (◌+ℤ pos 1) (sym (days_from_civil-number y m d a b c e (omega (arith, last_day-le y m))))

last_day-december : (y m : ℕ) → 12 ≤ m → last_day y m ≡ 31
unfolding last_day
last_day-december y m h = ground arith

-- From year 1 on, the day after a date has the next number: months and leap years are the
-- Gregorian calendar's.
pub days_from_civil-next_day :
    (y m d : ℕ) → IsDate y m d → days (next_day y m d) ≡ days_from_civil y m d +ℤ pos 1
unfolding next_day
days_from_civil-next_day y m d (a, b, c, e, f) = elim (Bool-cases (ltb d (last_day y m))) [
  | inl same_month ↦
      rw (same_month, next_day)
        (days-suc y m d y m (suc d) (a, b, c, e, f)
          (a, b, c, omega arith, ltb→lt d (last_day y m) same_month)
          (number-day y m d b c e
            (omega (arith, last_day-le y m, ltb→lt d (last_day y m) same_month))))
  | inr month_ends ↦ elim (Bool-cases (ltb m 12)) [
    | inl same_year ↦
        rw (month_ends, same_year, next_day)
          (days-suc y m d y (suc m) 1 (a, b, c, e, f)
            (a, omega arith, ltb→lt m 12 same_year, omega arith, last_day-ge y (suc m))
            (number-month y m a b (omega (arith, ltb→lt m 12 same_year))
              ∙ ap (λ n. suc (number y m n))
                  (omega (arith, ltb-false d (last_day y m) month_ends))))
    | inr year_ends ↦
        rw (month_ends, year_ends, next_day)
          (days-suc y m d (suc y) 1 1 (a, b, c, e, f)
            (omega arith, omega arith, omega arith, omega arith, last_day-ge (suc y) 1)
            (let december : 12 ≡ m = omega (arith, ltb-false m 12 year_ends) in
              let last : 31 ≡ d = omega (
                arith,
                ltb-false d (last_day y m) month_ends,
                last_day-december y m (omega arith),
              ) in
              number-year y a
              ∙ ap (λ n. suc (number y 12 n)) last
              ∙ ap (λ n. suc (number y n d)) december))
  ]
]
