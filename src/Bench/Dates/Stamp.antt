-- ===== src/Bench/Dates/Stamp.antt =====
-- `chrono_like_utc` of src/bin/benchmark_runner.rs on clocks whose year fits an `i32`.
use ferrum_proxy.Common.{
  ℕ, zero, suc, ◌+◌, ◌-◌, ◌*◌, ◌/◌, ◌%◌, ◌≤◌, ◌<◌, ◌≡◌, refl, arith, ◌∙◌, ap, ℤ, pos, minus, to_i32,
  to_u32, wrap_from, div_euclid, rem_euclid, i64_bound, ◌>>=◌, String, Result, ok,
}
use ferrum_proxy.Bench.Dates.{
  civil_from_days, january_date, era_of, chrono_like_utc, date_parts, DateParts, year_of_era,
  day_of_march_year, month_and_day,
}
use ferrum_proxy.Bench.Dates.Calendar.{day_number, ValidDate, days_before_year-closed}
use ferrum_proxy.Bench.Dates.Civil.{
  civil_date, year_of-bounds, year_of-last, civil_year, month_of, day_of, march_year, day_of_year,
  year_of, before_march,
}

minus-le : (a b : ℕ) → b ≤ a → minus a b ≡ pos (a - b)
minus-le a b h = ground arith

era_of-pos : (z : ℕ) → era_of (pos z) ≡ pos (z / 146097)
unfolding era_of
era_of-pos z = ground arith

year_of_era-pos : (doe : ℕ) → year_of_era (pos doe) ≡ pos (year_of doe)
unfolding year_of_era
year_of_era-pos doe =
    rw (minus-le doe (doe / 1460) (omega arith))
      (rw (minus-le (doe - doe / 1460 + doe / 36524) (doe / 146096) (omega arith)) refl)

day_of_march_year-pos :
    (doe yoe : ℕ)
    → before_march yoe ≤ doe
    → day_of_march_year (pos doe) (pos yoe) ≡ pos (doe - before_march yoe)
unfolding day_of_march_year
day_of_march_year-pos doe yoe h =
    rw (minus-le (365 * yoe + yoe / 4) (yoe / 100) (omega arith))
      (minus-le doe (before_march yoe) h)

month_and_day-pos :
    (doy : ℕ) → doy ≤ 365 → month_and_day (pos doy) ≡ (pos (month_of doy), pos (day_of doy))
unfolding month_and_day
month_and_day-pos doy h =
    let mp = (5 * doy + 2) / 153 in
    rw (minus-le doy ((153 * mp + 2) / 5) (omega arith)) (ground arith)

january_date-pos :
    (y doy : ℕ)
    → january_date (pos y) (pos (month_of doy), pos (day_of doy))
      ≡ ok (to_i32 (pos (civil_year y doy)), to_u32 (pos (month_of doy)), to_u32 (pos (day_of doy)))
unfolding january_date
january_date-pos y doy = ground arith

civil_from_days-pos :
    (n : ℕ)
    → let z = n + 719468 in
      let y = march_year z in
      let doy = day_of_year z in
      doy ≤ 365
      → before_march (year_of (z % 146097)) ≤ z % 146097
      → civil_from_days (pos n)
        ≡ ok (
          to_i32 (pos (civil_year y doy)),
          to_u32 (pos (month_of doy)),
          to_u32 (pos (day_of doy)),
        )
unfolding civil_from_days
civil_from_days-pos n short start =
    let z = n + 719468 in
    let doe : z - 146097 * (z / 146097) ≡ z % 146097 = omega arith in
    rw (era_of-pos z, civil_from_days)
      (rw (minus-le z (146097 * (z / 146097)) (omega arith), civil_from_days)
        (rw (doe, civil_from_days)
          (rw (year_of_era-pos (z % 146097), civil_from_days)
            (rw (day_of_march_year-pos (z % 146097) (year_of (z % 146097)) start, civil_from_days)
              (ap (january_date (pos (march_year z))) (month_and_day-pos (day_of_year z) short)
                ∙ january_date-pos (march_year z) (day_of_year z))))))

-- The moment `secs` after the start of 1970, read off the parts of a date: the day of a valid date
-- of the calendar, and the hours, minutes and seconds in it.
pub record Shows (secs : ℕ) (tm : DateParts) : Type 0 where
  pub in_year : ℕ
  pub is_year : tm.year ≡ pos in_year
  pub valid : ValidDate in_year tm.month tm.day
  pub hours : tm.hour < 24
  pub minutes : tm.minute < 60
  pub seconds : tm.second < 60
  pub moment :
      ((day_number in_year tm.month tm.day * 24 + tm.hour) * 60 + tm.minute) * 60 + tm.second
      ≡ 719528 * 86400 + secs

-- The first second of the year 2 ^ 31.
abbrev pub year_limit : ℕ
year_limit = 67767976233532800

to_i32-small : (y : ℕ) → y < 2147483648 → to_i32 (pos y) ≡ pos y
to_i32-small y h = ground arith

day_of_year-short :
    (z : ℕ) → (day_of_year z ≤ 365) × (before_march (year_of (z % 146097)) ≤ z % 146097)
day_of_year-short z =
    let small : z % 146097 < 146097 = omega arith in
    let start = (year_of-bounds (z % 146097) small).1 in
    let last = year_of-last (z % 146097) small in (ground arith, start)

year-bound :
    (y m d z : ℕ) → day_number y m d ≡ 60 + z → z < year_limit / 86400 + 719468 → y < 2147483648
unfolding day_number
year-bound zero m d z e h = omega arith
year-bound (suc y) m d z e h = omega (arith, days_before_year-closed y)

small_u32 : (n : ℕ) → n < 4294967296 → to_u32 (pos n) ≡ n
small_u32 n h = omega arith

-- The date of a day whose year fits an `i32`.
civil_from_days-date :
    (n : ℕ)
    → n < year_limit / 86400
    → (y m d : ℕ) × (civil_from_days (pos n) ≡ ok (pos y, m, d))
      × ValidDate y m d
      × (day_number y m d ≡ 719528 + n)
civil_from_days-date n h =
    let z = n + 719468 in
    let (short, start) = day_of_year-short z in
    let (v, e) = civil_date z in
    let doy = day_of_year z in
    let y = civil_year (march_year z) doy in
    let small = year-bound y (month_of doy) (day_of doy) z e (omega arith) in
    let code = civil_from_days-pos n short start in
    (
      y,
      month_of doy,
      day_of doy,
      code
          ∙ rw (to_i32-small y small) (
              rw (small_u32 (month_of doy) (ground arith))
                (rw (small_u32 (day_of doy) (ground arith)) refl)),
      v,
      e ∙ omega arith,
    )

to_i64-small : (n : ℕ) → n < i64_bound → wrap_from i64_bound n ≡ pos n
to_i64-small n h = ground arith

abbrev parts_at : ℤ → Result String DateParts
parts_at secs = civil_from_days (div_euclid secs 86400) >>= date_parts (rem_euclid secs 86400)

chrono_like_utc-parts_at : (secs : ℕ) → chrono_like_utc secs ≡ parts_at (wrap_from i64_bound secs)
unfolding chrono_like_utc
chrono_like_utc-parts_at secs = refl

-- Up to the end of the year 2^31 - 1, the date of the benchmark runner is a valid date of the
-- Gregorian calendar with hours, minutes and seconds in their ranges, and its day and time count
-- the given seconds from the start of 1970.
pub chrono_like_utc-Shows :
    (secs : ℕ)
    → secs < year_limit
    → (tm : DateParts) × (chrono_like_utc secs ≡ ok tm) × Shows secs tm
chrono_like_utc-Shows secs h =
    let (y, m, d, code, v, e) = civil_from_days-date (secs / 86400) (omega arith) in
    let second_of_day = secs % 86400 in
    let tm : DateParts = record {
      year = pos y;
      month = m;
      day = d;
      hour = second_of_day / 3600;
      minute = second_of_day % 3600 / 60;
      second = second_of_day % 60;
    } in
    (
      tm,
      chrono_like_utc-parts_at secs ∙ ap parts_at (to_i64-small secs (omega arith)) ∙ rw code refl,
      record {
        in_year = y;
        is_year = refl;
        valid = v;
        hours = omega arith;
        minutes = omega arith;
        seconds = omega arith;
        moment = omega arith;
      },
    )
