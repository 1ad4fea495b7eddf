-- ===== src/Tls/Clock/Calendar.antt =====
-- kernel/tls.c: `tls_time` against the calendar.
use un_orion.Common.{
  ℕ, zero, suc, ◌+◌, ◌-◌, ◌*◌, ◌/◌, ◌%◌, ◌≤◌, ◌<◌, ◌≡◌, refl, ap, ◌∙◌, bit_and, Bool, true, false,
  not, ◌&&◌, ◌||◌, some, ltb, leb, ◌==◌, if◌then◌else◌, holds_below, holds_below-at, arith,
}
use un_orion.Tls.Clock.{
  Rtc, bcd, leap, month_days, days_in, add_years, add_months, full_hour, full_year,
  days_and_seconds, decoded, time_in, time_of,
}

-- The days before a date, counted from the first day of the year 0, by the formula of the Gregorian
-- calendar: the leap days of the years before, and 30.6 days a month.
abbrev pub day_number : ℕ → ℕ → ℕ → ℕ
day_number y mo d =
    let p = y - 1 in
    let short = if leb mo 2 then 0 else if leap y then 1 else 2 in
    366 + 365 * p + p / 4 - p / 100 + p / 400 + ((367 * mo - 362) / 12 - short) + (d - 1)

abbrev years_agree : ℕ → Bool
years_agree n =
    let p = 1969 + n in 719528 + add_years n 1970 0 == 366 + 365 * p + p / 4 - p / 100 + p / 400

years_table : holds_below years_agree 230 ≡ true
unfolding holds_below add_years leap
years_table = refl

-- The loop over the months, by whether the year is a leap year.
abbrev months : ℕ → Bool → ℕ → ℕ
months zero long z = 0
months (suc n) long z = month_days z + (if z == 2 && long then 1 else 0) + months n long (z + 1)

add_months-months : (n y z days : ℕ) → add_months n y z days ≡ days + months n (leap y) z
unfolding add_months
add_months-months zero y z days = omega arith
add_months-months (suc n) y z days =
    add_months-months n y (z + 1) (days + days_in y z) ∙ omega arith

abbrev months_agree : Bool → ℕ → Bool
months_agree long mo =
    mo == 0
    || months (mo - 1) long 1
      == (367 * mo - 362) / 12 - (if leb mo 2 then 0 else if long then 1 else 2)

months_table : (long : Bool) → holds_below (months_agree long) 13 ≡ true
unfolding holds_below month_days
months_table true = refl
months_table false = refl

-- The registers as they stand for a date and a time, in either of the formats of the numbers and of the
-- hour.
abbrev pub coded : Bool → ℕ → ℕ
coded binary x = if binary then x else x / 10 * 16 + x % 10

abbrev pub hour_register : Bool → Bool → ℕ → ℕ
hour_register binary half h =
    if half
    then coded binary (if h % 12 == 0 then 12 else h % 12) + (if leb 12 h then 0x80 else 0)
    else coded binary h

abbrev pub registers : Bool → Bool → ℕ → ℕ → ℕ → ℕ → ℕ → ℕ → Rtc
registers binary half y mo d h m s = record {
  sec = coded binary s;
  min = coded binary m;
  hour = hour_register binary half h;
  day = coded binary d;
  mon = coded binary mo;
  year = coded binary (y % 100);
  cent = coded binary (y / 100);
  regb = (if binary then 4 else 0) + (if half then 0 else 2);
}

coded_table : holds_below (λ x. bcd (coded false x) == x) 100 ≡ true
unfolding holds_below bcd
coded_table = refl

decoded-coded : (binary : Bool) (x : ℕ) → x < 100 → decoded binary (coded binary x) ≡ x
decoded-coded true x h = refl
decoded-coded false x h =
    let e = holds_below-at (λ x. bcd (coded false x) == x) 100 {v = x} h coded_table in ground arith

abbrev hour_agrees : Bool → Bool → ℕ → Bool
hour_agrees binary half h =
    let r = hour_register binary half h in
    full_hour half (not (bit_and r 0x80 == 0)) (decoded binary (bit_and r 0x7f)) == h

hours_table : (binary half : Bool) → holds_below (hour_agrees binary half) 24 ≡ true
unfolding holds_below bcd
hours_table true true = refl
hours_table true false = refl
hours_table false true = refl
hours_table false false = refl

full_hour-register :
    (binary half : Bool) (h : ℕ)
    → h < 24
    → full_hour half
        (not (bit_and (hour_register binary half h) 0x80 == 0))
        (decoded binary (bit_and (hour_register binary half h) 0x7f))
      ≡ h
full_hour-register binary half h k =
    let e = holds_below-at (hour_agrees binary half) 24 {v = h} k (hours_table binary half) in
    ground arith

years :
    (y : ℕ)
    → 1970 ≤ y
    → y ≤ 2199
    → 719528 + add_years (y - 1970) 1970 0
      ≡ 366 + 365 * (y - 1) + (y - 1) / 4 - (y - 1) / 100 + (y - 1) / 400
years y h k =
    let e = holds_below-at years_agree 230 {v = y - 1970} (omega arith) years_table in
    let back : 1969 + (y - 1970) ≡ y - 1 = omega arith in
    let f : 719528 + add_years (y - 1970) 1970 0
        ≡ 366
          + 365 * (1969 + (y - 1970))
          + (1969 + (y - 1970)) / 4
          - (1969 + (y - 1970)) / 100
          + (1969 + (y - 1970)) / 400 =
      ground arith in
    rw back at f

months_before :
    (long : Bool) (mo : ℕ)
    → 1 ≤ mo
    → mo ≤ 12
    → months (mo - 1) long 1
      ≡ (367 * mo - 362) / 12 - (if leb mo 2 then 0 else if long then 1 else 2)
months_before long mo h k =
    let e = holds_below-at (months_agree long) 13 {v = mo} (omega arith) (months_table long) in
    ground arith

at_most_31 : (y mo : ℕ) → days_in y mo ≤ 31
unfolding month_days
at_most_31 y mo = ground arith

days_and_seconds-day_number :
    (y mo d h m s : ℕ)
    → 2020 ≤ y
    → y ≤ 2199
    → 1 ≤ mo
    → mo ≤ 12
    → 1 ≤ d
    → d ≤ days_in y mo
    → h < 24
    → m < 60
    → s ≤ 60
    → days_and_seconds y mo d h m s ≡ some (day_number y mo d, h * 3600 + m * 60 + s)
unfolding days_and_seconds
days_and_seconds-day_number y mo d h m s a b c e f g i j k =
    let in_range : ltb y 2020
          || ltb 2199 y
          || ltb mo 1
          || ltb 12 mo
          || ltb d 1
          || ltb 31 d
          || ltb 23 h
          || ltb 59 m
          || ltb 60 s
        ≡ false =
      ground (arith, at_most_31 y mo) in
    let in_month : ltb (days_in y mo) d ≡ false = ground arith in
    rw
      (
        in_range,
        in_month,
        add_months-months (mo - 1) y 1 (add_years (y - 1970) 1970 0),
        months_before (leap y) mo c e,
      )
      (ap (λ n. some (n, h * 3600 + m * 60 + s)) (omega (arith, years y (omega arith) b)))

time_in-registers :
    (binary half : Bool) (y mo d h m s : ℕ)
    → 2020 ≤ y
    → y ≤ 2199
    → 1 ≤ mo
    → mo ≤ 12
    → 1 ≤ d
    → d ≤ days_in y mo
    → h < 24
    → m < 60
    → s ≤ 60
    → time_in binary half (registers binary half y mo d h m s)
      ≡ some (day_number y mo d, h * 3600 + m * 60 + s)
time_in-registers binary half y mo d h m s a b c e f g i j k =
    let year : full_year (y / 100) (y % 100) ≡ y = ground arith in
    rw
      (
        decoded-coded binary (y / 100) (omega arith),
        decoded-coded binary (y % 100) (omega arith),
        decoded-coded binary mo (omega arith),
        decoded-coded binary d (omega (arith, at_most_31 y mo)),
        full_hour-register binary half h i,
        decoded-coded binary m (omega arith),
        decoded-coded binary s (omega arith),
        year,
      )
      (days_and_seconds-day_number y mo d h m s a b c e f g i j k)

-- The clock's registers of a date from 2020 to 2199 and a time, in BCD or in binary, in the mode of 12
-- hours or of 24, give the number of the day by the formula of the Gregorian calendar, and the seconds
-- of the day.
pub time_of-registers :
    (binary half : Bool) (y mo d h m s : ℕ)
    → 2020 ≤ y
    → y ≤ 2199
    → 1 ≤ mo
    → mo ≤ 12
    → 1 ≤ d
    → d ≤ days_in y mo
    → h < 24
    → m < 60
    → s ≤ 60
    → time_of (registers binary half y mo d h m s) ≡ some (day_number y mo d, h * 3600 + m * 60 + s)
unfolding time_of
time_of-registers true true = time_in-registers true true
time_of-registers true false = time_in-registers true false
time_of-registers false true = time_in-registers false true
time_of-registers false false = time_in-registers false false
