-- ===== src/Bench/Dates/Calendar.antt =====
-- The Gregorian calendar by its rules, and the numbers of its days.
use ferrum_proxy.Common.{
  ℕ, zero, suc, ◌+◌, ◌-◌, ◌*◌, ◌/◌, ◌%◌, ◌≤◌, ◌≡◌, refl, Bool, not, ◌&&◌, ◌||◌, if◌then◌else◌,
  nat_beq, arith,
}

abbrev pub is_leap : ℕ → Bool
is_leap y = nat_beq (y % 4) 0 && (not (nat_beq (y % 100) 0) || nat_beq (y % 400) 0)

abbrev pub days_in_year : ℕ → ℕ
days_in_year y = if is_leap y then 366 else 365

abbrev pub days_in_month : ℕ → ℕ → ℕ
days_in_month y m =
    if nat_beq m 2
    then (if is_leap y then 29 else 28)
    else if nat_beq m 4 || nat_beq m 6 || nat_beq m 9 || nat_beq m 11
    then 30
    else 31

-- The days before the first of January of year `y`, from the start of year 0.
unfoldable pub days_before_year : ℕ → ℕ
days_before_year zero = 0
days_before_year (suc y) = days_before_year y + days_in_year y

abbrev pub days_until_month : ℕ → ℕ → ℕ
days_until_month y zero = 0
days_until_month y (suc zero) = 0
days_until_month y (suc (suc m)) = days_in_month y (suc m) + days_until_month y (suc m)

-- The number of a day, the first of January of year 0 being day 0.
unfoldable pub day_number : ℕ → ℕ → ℕ → ℕ
day_number y m d = days_before_year y + days_until_month y m + (d - 1)

pub record ValidDate (y m d : ℕ) : Type 0 where
  pub month_from : 1 ≤ m
  pub month_to : m ≤ 12
  pub day_from : 1 ≤ d
  pub day_to : d ≤ days_in_month y m

pub days_before_year-closed :
    (y : ℕ) → days_before_year (suc y) ≡ 365 * suc y + y / 4 - y / 100 + y / 400 + 1
unfolding days_before_year
days_before_year-closed zero = refl
days_before_year-closed (suc y) = let ih = days_before_year-closed y in ground arith

-- The months before one in a closed form, which counts from March.
abbrev pub march_form : ℕ → ℕ → ℕ
march_form y m =
    if nat_beq m 1
    then 0
    else if nat_beq m 2
    then 31
    else (153 * (m - 3) + 2) / 5 + 59 + (if is_leap y then 1 else 0)

pub days_until_month-closed : (y m : ℕ) → 1 ≤ m → m ≤ 12 → days_until_month y m ≡ march_form y m
days_until_month-closed y zero h k = absurd (omega arith)
days_until_month-closed y (suc zero) h k = refl
days_until_month-closed y (suc (suc zero)) h k = refl
days_until_month-closed y (suc (suc (suc zero))) h k = ground arith
days_until_month-closed y (suc (suc (suc (suc zero)))) h k = ground arith
days_until_month-closed y (suc (suc (suc (suc (suc zero))))) h k = ground arith
days_until_month-closed y (suc (suc (suc (suc (suc (suc zero)))))) h k = ground arith
days_until_month-closed y (suc (suc (suc (suc (suc (suc (suc zero))))))) h k = ground arith
days_until_month-closed y (suc (suc (suc (suc (suc (suc (suc (suc zero)))))))) h k = ground arith
days_until_month-closed y (suc (suc (suc (suc (suc (suc (suc (suc (suc zero))))))))) h k =
    ground arith
days_until_month-closed y (suc (suc (suc (suc (suc (suc (suc (suc (suc (suc zero)))))))))) h k =
    ground arith
days_until_month-closed y (suc (suc (suc (suc (suc (suc (suc (suc (suc (suc (suc zero))))))))))) h
      k =
    ground arith
days_until_month-closed y
      (suc (suc (suc (suc (suc (suc (suc (suc (suc (suc (suc (suc zero)))))))))))) h k =
    ground arith
days_until_month-closed y
      (suc (suc (suc (suc (suc (suc (suc (suc (suc (suc (suc (suc (suc m))))))))))))) h k =
    absurd (omega arith)
