-- ===== src/Bench/Dates/Civil.antt =====
-- `civil_from_days` of src/bin/benchmark_runner.rs on the days since 1970.
use ferrum_proxy.Common.{
  ℕ, zero, suc, ◌+◌, ◌-◌, ◌*◌, ◌/◌, ◌%◌, ◌≤◌, ◌<◌, ◌≡◌, refl, true, false, if◌then◌else◌, arith,
  ltb, leb, Bool-cases, inl, inr, ◌∙◌, ap,
}
use ferrum_proxy.Bench.Dates.Calendar.{
  is_leap, days_before_year, day_number, ValidDate, days_before_year-closed,
  days_until_month-closed, march_form,
}

-- The year of the era that a day of the era lies in.
abbrev pub year_of : ℕ → ℕ
year_of doe = (doe - doe / 1460 + doe / 36524 - doe / 146096) / 365

-- The days of an era before the March of a year of it.
abbrev pub before_march : ℕ → ℕ
before_march q = 365 * q + q / 4 - q / 100

pub year_of-bounds :
    (doe : ℕ) → doe < 146097 → (year_of doe < 400) × (before_march (year_of doe) ≤ doe)
year_of-bounds doe h = omega arith

pub year_of-last :
    (doe : ℕ)
    → doe < 146097
    → let q = year_of doe in doe ≤ before_march q + 364 + (if is_leap (q + 1) then 1 else 0)
year_of-last doe h = ground arith

abbrev pub month_of : ℕ → ℕ
month_of doy = let mp = (5 * doy + 2) / 153 in if ltb mp 10 then mp + 3 else mp - 9

abbrev pub day_of : ℕ → ℕ
day_of doy = let mp = (5 * doy + 2) / 153 in doy - (153 * mp + 2) / 5 + 1

abbrev pub civil_year : ℕ → ℕ → ℕ
civil_year y doy = if leb (month_of doy) 2 then y + 1 else y

civil_valid :
    (y doy : ℕ)
    → doy ≤ 364 + (if is_leap (y + 1) then 1 else 0)
    → ValidDate (civil_year y doy) (month_of doy) (day_of doy)
civil_valid y doy h = record {
  month_from = ground arith;
  month_to = ground arith;
  day_from = ground arith;
  day_to = ground arith;
}

before_year-leap :
    (y : ℕ)
    → days_before_year y + (if is_leap y then 1 else 0) ≡ 365 * y + y / 4 - y / 100 + y / 400 + 1
before_year-leap zero = unfold days_before_year in refl
before_year-leap (suc y) = ground (arith, days_before_year-closed y)

-- Days of January and February, and those from March on.
early_days :
    (y doy : ℕ)
    → doy ≤ 365
    → leb (month_of doy) 2 ≡ true
    → march_form y (month_of doy) + (day_of doy - 1) + 306 ≡ doy
early_days y doy h early = ground arith

late_days :
    (y doy : ℕ)
    → doy ≤ 365
    → leb (month_of doy) 2 ≡ false
    → march_form y (month_of doy) + (day_of doy - 1) ≡ 59 + (if is_leap y then 1 else 0) + doy
late_days y doy h late = ground arith

month_of-bounds : (doy : ℕ) → doy ≤ 365 → (1 ≤ month_of doy) × (month_of doy ≤ 12)
month_of-bounds doy h = ground arith

-- The day number with the months before it in the closed form.
day_number-closed :
    (y doy : ℕ)
    → doy ≤ 365
    → day_number y (month_of doy) (day_of doy)
      ≡ days_before_year y + march_form y (month_of doy) + (day_of doy - 1)
unfolding day_number
day_number-closed y doy h =
    let (from, to) = month_of-bounds doy h in
    ap (λ days. days_before_year y + days + (day_of doy - 1))
      (days_until_month-closed y (month_of doy) from to)

civil_number :
    (y doy : ℕ)
    → doy ≤ 365
    → day_number (civil_year y doy) (month_of doy) (day_of doy)
      ≡ 60 + 365 * y + y / 4 - y / 100 + y / 400 + doy
civil_number y doy h = elim (Bool-cases (leb (month_of doy) 2)) [
  | inl early ↦
      let next : civil_year y doy ≡ suc y = rw early (omega arith) in
      rw next (
        day_number-closed (suc y) doy h
        ∙ omega (arith, days_before_year-closed y, early_days (suc y) doy h early))
  | inr late ↦
      let same : civil_year y doy ≡ y = rw late refl in
      rw same
        (day_number-closed y doy h ∙ omega (arith, before_year-leap y, late_days y doy h late))
]

-- The year, counted from March, and the day in it, of a day counted from March of year 0.
abbrev pub march_year : ℕ → ℕ
march_year z = year_of (z % 146097) + 400 * (z / 146097)

abbrev pub day_of_year : ℕ → ℕ
day_of_year z = z % 146097 - before_march (year_of (z % 146097))

era_split :
    (q e : ℕ)
    → q < 400
    → let y = q + 400 * e in
      (365 * y + y / 4 - y / 100 + y / 400 ≡ before_march q + 146097 * e)
      × (is_leap (y + 1) ≡ is_leap (q + 1))
era_split q e h = (omega arith, ground arith)

pub civil_date :
    (z : ℕ)
    → let y = march_year z in
      let doy = day_of_year z in
      ValidDate (civil_year y doy) (month_of doy) (day_of doy)
      × (day_number (civil_year y doy) (month_of doy) (day_of doy) ≡ 60 + z)
civil_date z =
    let r = z % 146097 in
    let small : r < 146097 = omega arith in
    let (young, start) = year_of-bounds r small in
    let last = year_of-last r small in
    let (split, leap) = era_split (year_of r) (z / 146097) young in
    let y = march_year z in
    let doy = day_of_year z in
    let short : doy ≤ 364 + (if is_leap (y + 1) then 1 else 0) =
      rw leap (omega (arith, last, start)) in
    (civil_valid y doy short, civil_number y doy (ground arith) ∙ omega (arith, split, start))
