-- ===== src/Bench/Dates.antt =====
-- The calendar of src/bin/benchmark_runner.rs: `unix_timestamp_string`, `chrono_like_utc` and
-- `civil_from_days`.
pub mod Calendar
pub mod Civil
pub mod Stamp
use ferrum_proxy.Common.{
  ℕ, ◌+◌, ◌-◌, ◌*◌, ◌/◌, ◌%◌, ◌≡◌, refl, if◌then◌else◌, ℤ, pos, negsuc, ◌+ℤ◌, ◌-ℤ◌, scale, quot,
  div_euclid, rem_euclid, is_at_most, is_below, wrap_from, to_u32, to_i32, i64_bound, String,
  Result, ok, err, ◌>>=◌, ◌⧺◌, show, ltb,
}

-- The era of 400 years that a day `z` lies in.
unfoldable pub era_of : ℤ → ℤ
era_of z = quot (if is_below z 0 then z -ℤ pos 146096 else z) 146097

-- The year `yoe` of an era, from the day `doe` of the era.
unfoldable pub year_of_era : ℤ → ℤ
year_of_era doe = quot (doe -ℤ quot doe 1460 +ℤ quot doe 36524 -ℤ quot doe 146096) 365

-- The day `doy` of a year that starts in March.
unfoldable pub day_of_march_year : ℤ → ℤ → ℤ
day_of_march_year doe yoe = doe -ℤ (scale 365 yoe +ℤ quot yoe 4 -ℤ quot yoe 100)

-- `m` and `d`
unfoldable pub month_and_day : ℤ → ℤ × ℤ
month_and_day doy =
    let mp = quot (scale 5 doy +ℤ pos 2) 153 in
    let d = doy -ℤ quot (scale 153 mp +ℤ pos 2) 5 +ℤ pos 1 in
    let m = mp +ℤ (if is_below mp 10 then pos 3 else negsuc 8) in (m, d)

-- The date, whose year starts in January: a triple of `i32`, `u32` and `u32`.
unfoldable pub january_date : ℤ → ℤ × ℤ → Result String (ℤ × ℕ × ℕ)
january_date y (m, d) =
    let year = y +ℤ (if is_at_most m 2 then pos 1 else pos 0) in
    ok (to_i32 year, to_u32 m, to_u32 d)

unfoldable pub civil_from_days : ℤ → Result String (ℤ × ℕ × ℕ)
unfolding era_of year_of_era day_of_march_year month_and_day january_date
civil_from_days days_since_epoch =
    let z = days_since_epoch +ℤ pos 719468 in
    let era = era_of z in
    let doe = z -ℤ scale 146097 era in
    let yoe = year_of_era doe in
    let y = yoe +ℤ scale 400 era in january_date y (month_and_day (day_of_march_year doe yoe))

pub record DateParts : Type 0 where
  pub year : ℤ
  pub month : ℕ
  pub day : ℕ
  pub hour : ℕ
  pub minute : ℕ
  pub second : ℕ

abbrev pub date_parts : ℕ → ℤ × ℕ × ℕ → Result String DateParts
date_parts seconds_of_day (y, m, d) = ok (record {
  year = y;
  month = m;
  day = d;
  hour = seconds_of_day / 3600;
  minute = seconds_of_day % 3600 / 60;
  second = seconds_of_day % 60;
})

unfoldable pub chrono_like_utc : ℕ → Result String DateParts
unfolding civil_from_days
chrono_like_utc timestamp_secs =
    let secs = wrap_from i64_bound timestamp_secs in
    civil_from_days (div_euclid secs 86400) >>= date_parts (rem_euclid secs 86400)

-- `{:02}` and `{:04}` of a number that is not negative, and `{:04}` of one that is.
abbrev pub zeros_for : ℕ → ℕ → String
zeros_for below n = if ltb n below then "0" else ""

abbrev pub two_digits : ℕ → String
two_digits n = zeros_for 10 n ⧺ show n

abbrev pub four_digits : ℤ → String
four_digits (pos n) = zeros_for 1000 n ⧺ zeros_for 100 n ⧺ zeros_for 10 n ⧺ show n
four_digits (negsuc n) = "-" ⧺ zeros_for 99 n ⧺ zeros_for 9 n ⧺ show (n + 1)

-- The clock's reading since 1970, in seconds, is the argument; a clock before 1970 is the error of
-- `duration_since`.
unfoldable pub unix_timestamp_string : Result String ℕ → Result String String
unfolding chrono_like_utc show
unix_timestamp_string since_epoch = do
  secs ← since_epoch
  tm ← chrono_like_utc secs
  ok (
      four_digits tm.year
      ⧺ two_digits tm.month
      ⧺ two_digits tm.day
      ⧺ "-"
      ⧺ two_digits tm.hour
      ⧺ two_digits tm.minute
      ⧺ two_digits tm.second)

leap_day_test : unix_timestamp_string (ok 951787425) ≡ ok "20000229-012345"
unfolding unix_timestamp_string
leap_day_test = refl
