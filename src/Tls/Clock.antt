-- ===== src/Tls/Clock.antt =====
-- kernel/tls.c: `rtc_snapshot` and `tls_time`. A reading of the clock's registers is the environment's;
-- the code waits for each until no update is under way.
pub mod Calendar
use un_orion.Common.{
  ℕ, zero, suc, ◌+◌, ◌-◌, ◌*◌, ◌/◌, ◌%◌, ◌^◌, bit_and, Bool, true, false, not, ◌&&◌, ◌||◌, Option,
  none, some, u8, ltb, leb, ◌==◌, if◌then◌else◌,
}

-- The registers, with `regb`.
pub record Rtc : Type 0 where
  pub sec : ℕ
  pub min : ℕ
  pub hour : ℕ
  pub day : ℕ
  pub mon : ℕ
  pub year : ℕ
  pub cent : ℕ
  pub regb : ℕ

abbrev pub same_reading : Rtc → Rtc → Bool
same_reading a b =
    a.sec == b.sec
    && a.min == b.min
    && a.hour == b.hour
    && a.day == b.day
    && a.mon == b.mon
    && a.year == b.year
    && a.cent == b.cent
    && a.regb == b.regb

-- The `k`-th two readings are `readings k`; `left` tries are left.
unfoldable pub rtc_snapshot : ℕ → ℕ → (ℕ → Rtc × Rtc) → Option Rtc
rtc_snapshot zero k readings = none
rtc_snapshot (suc left) k readings =
    let (a, b) = readings k in
    let again = rtc_snapshot left (k + 1) readings in if same_reading a b then some b else again

unfoldable pub bcd : ℕ → ℕ
bcd x = x % 16 + 10 * (x / 16 % 16)

unfoldable pub leap : ℕ → Bool
leap y = (y % 4 == 0 && not (y % 100 == 0)) || y % 400 == 0

-- The array `md` at the month before `mo`.
unfoldable pub month_days : ℕ → ℕ
month_days mo = if mo == 2 then 28 else if mo == 4 || mo == 6 || mo == 9 || mo == 11 then 30 else 31

abbrev pub days_in : ℕ → ℕ → ℕ
days_in year mo = month_days mo + (if mo == 2 && leap year then 1 else 0)

-- The loops over the years from `z` on, and over the months from `z` on.
unfoldable pub add_years : ℕ → ℕ → ℕ → ℕ
add_years zero z days = days
add_years (suc n) z days = add_years n (z + 1) (days + (if leap z then 366 else 365))

unfoldable pub add_months : ℕ → ℕ → ℕ → ℕ → ℕ
add_months zero year z days = days
add_months (suc n) year z days = add_months n year (z + 1) (days + days_in year z)

-- The hour of the day from its register and the mode of 12 hours.
abbrev pub full_hour : Bool → Bool → ℕ → ℕ
full_hour half pm h =
    if not half
    then h
    else let a = if pm && ltb h 12 then u8 (h + 12) else h in if not pm && a == 12 then 0 else a

abbrev pub full_year : ℕ → ℕ → ℕ
full_year c y =
    if leb 19 c && leb c 99 then c * 100 + y else if ltb y 70 then 2000 + y else 1900 + y

-- A date and a time: `*days` and `*seconds`.
unfoldable pub days_and_seconds : ℕ → ℕ → ℕ → ℕ → ℕ → ℕ → Option (ℕ × ℕ)
days_and_seconds yy mo d h m s =
    let days = add_months (mo - 1) yy 1 (add_years (yy - 1970) 1970 0) in
    if ltb yy 2020
      || ltb 2199 yy
      || ltb mo 1
      || ltb 12 mo
      || ltb d 1
      || ltb 31 d
      || ltb 23 h
      || ltb 59 m
      || ltb 60 s
    then none
    else if ltb (days_in yy mo) d
    then none
    else some (719528 + (days + (d - 1)), h * 3600 + m * 60 + s)

-- A number in a register.
abbrev pub decoded : Bool → ℕ → ℕ
decoded binary x = if binary then x else bcd x

-- `tls_time` from the reading on, in the format that it states.
abbrev pub time_in : Bool → Bool → Rtc → Option (ℕ × ℕ)
time_in binary half r =
    days_and_seconds (full_year (decoded binary r.cent) (decoded binary r.year))
      (decoded binary r.mon) (decoded binary r.day)
      (full_hour half (not (bit_and r.hour 0x80 == 0)) (decoded binary (bit_and r.hour 0x7f)))
      (decoded binary r.min) (decoded binary r.sec)

unfoldable pub time_of : Rtc → Option (ℕ × ℕ)
time_of r = time_in (not (bit_and r.regb 0x04 == 0)) (bit_and r.regb 0x02 == 0) r

unfoldable pub tls_time : (ℕ → Rtc × Rtc) → Option (ℕ × ℕ)
tls_time readings = elim (rtc_snapshot 8 0 readings) [ none ↦ none | some r ↦ time_of r ]
