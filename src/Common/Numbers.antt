-- ===== src/Common/Numbers.antt =====
-- `str::parse` of unsigned numbers, and numbers as texts and back.
use Prim.Native.Nat.{ℕ, zero, suc, ◌+◌, ◌-◌, ◌*◌, ◌/◌, ◌%◌, ◌<◌}
use Prim.Native.Char.{Char, code}
use Prim.Native.String.{String}
use mathlib.Core.Path.{◌≡◌, refl, sym, ap, ◌∙◌}
use text.Mathlib.TextLemmas.{cons-append, nil-append, cons≢nil}
use mathlib.Core.Logic.{◌≢◌, inl, inr}
use mathlib.Core.Bool.{Bool, not, ◌&&◌}
use mathlib.Core.Option.{Option, none, some}
use native.Mathlib.Omega.{arith}
use ferrum_proxy.Common.Tests.{if◌then◌else◌, leb, ltb, nat_beq, u64_mod, Bool-cases}
use ferrum_proxy.Common.Text.{◌⧺◌, digit, show_from, show}
use ferrum_proxy.Common.Results.{Result, ok, err}

-- The texts of `ParseIntError`.
abbrev pub empty_number : String
empty_number = "cannot parse integer from empty string"

abbrev pub invalid_digit : String
invalid_digit = "invalid digit found in string"

abbrev pub overflow : String
overflow = "number too large to fit in target type"

abbrev is_digit : ℕ → Bool
is_digit n = leb b'0' n && leb n b'9'

-- `str::parse` of an unsigned type whose values are below `bound`: digits, the value kept below the
-- bound at each of them.
unfoldable pub digits_from : ℕ → ℕ → String → Result String ℕ
digits_from bound acc String.[] = ok acc
digits_from bound acc (String.◌∷◌ c s) =
    let next = acc * 10 + (code c - b'0') in
    let rest = digits_from bound next s in
    if not (is_digit (code c))
    then err invalid_digit
    else if ltb next bound
    then rest
    else err overflow

-- A plus sign may stand in front, and needs a digit behind it.
number : ℕ → String → Result String ℕ
unfolding digits_from
number bound String.[] = err invalid_digit
number bound (String.◌∷◌ c s) = digits_from bound 0 (String.◌∷◌ c s)

unfoldable pub parse_uint : ℕ → String → Result String ℕ
unfolding number
parse_uint bound String.[] = err empty_number
parse_uint bound (String.◌∷◌ c s) =
    let rest = number bound s in
    if nat_beq (code c) b'+' then rest else number bound (String.◌∷◌ c s)

-- `parse::<u64>().ok()`
unfoldable pub parse_u64 : String → Option ℕ
unfolding parse_uint
parse_u64 s = elim (parse_uint u64_mod s) [ ok n ↦ some n | err _ ↦ none ]

parse_test : parse_u64 "16777217" ≡ some 16777217
unfolding parse_u64
parse_test = refl

overflow_test : parse_u64 "18446744073709551616" ≡ none
unfolding parse_u64
overflow_test = refl

-- The digit of a number below ten is its character.
pub digit-IsDigit :
    (d : ℕ) → d < 10 → (c : Char) × (digit d ≡ String.◌∷◌ c "") × (code c ≡ b'0' + d)
unfolding digit
digit-IsDigit zero h = ("0", refl, refl)
digit-IsDigit (suc zero) h = ("1", refl, refl)
digit-IsDigit (suc (suc zero)) h = ("2", refl, refl)
digit-IsDigit (suc (suc (suc zero))) h = ("3", refl, refl)
digit-IsDigit (suc (suc (suc (suc zero)))) h = ("4", refl, refl)
digit-IsDigit (suc (suc (suc (suc (suc zero))))) h = ("5", refl, refl)
digit-IsDigit (suc (suc (suc (suc (suc (suc zero)))))) h = ("6", refl, refl)
digit-IsDigit (suc (suc (suc (suc (suc (suc (suc zero))))))) h = ("7", refl, refl)
digit-IsDigit (suc (suc (suc (suc (suc (suc (suc (suc zero)))))))) h = ("8", refl, refl)
digit-IsDigit (suc (suc (suc (suc (suc (suc (suc (suc (suc zero))))))))) h = ("9", refl, refl)
digit-IsDigit (suc (suc (suc (suc (suc (suc (suc (suc (suc (suc d)))))))))) h = absurd (omega arith)

digits_from-digit :
    (bound acc d : ℕ) (rest : String)
    → d < 10
    → acc * 10 + d < bound
    → digits_from bound acc (digit d ⧺ rest) ≡ digits_from bound (acc * 10 + d) rest
unfolding digits_from
digits_from-digit bound acc d rest h small =
    let (c, e, n) = digit-IsDigit d h in
    rw e (
      ap (digits_from bound acc) (cons-append c "" rest ∙ ap (String.◌∷◌ c) (nil-append rest))
      ∙ ground (arith, n))

digits_from-show_from :
    (bound f n : ℕ) (rest : String)
    → n < f
    → n < bound
    → digits_from bound 0 (show_from f n rest) ≡ digits_from bound n rest
unfolding show_from
digits_from-show_from bound zero n rest h small = absurd (omega arith)
digits_from-show_from bound (suc f) n rest h small = elim (Bool-cases (ltb n 10)) [
  | inl one ↦ rw one (
      let e : n % 10 ≡ n = ground arith in
      rw e (
        digits_from-digit bound 0 n rest (ground arith) (omega arith)
        ∙ ap (λ m. digits_from bound m rest) (omega arith)))
  | inr more ↦
      let split : n / 10 * 10 + n % 10 ≡ n = omega arith in
      rw more (
        digits_from-show_from bound f (n / 10) (digit (n % 10) ⧺ rest) (ground arith) (omega arith)
        ∙ digits_from-digit bound (n / 10) (n % 10) rest (omega arith) (omega arith)
        ∙ ap (λ m. digits_from bound m rest) split)
]

-- A number in front of which nothing is written is read as such, unless it is empty.
parse_uint-digits :
    (bound n : ℕ) (s : String) → s ≢ "" → digits_from bound 0 s ≡ ok n → parse_uint bound s ≡ ok n
unfolding parse_uint number digits_from
parse_uint-digits bound n String.[] ne e = absurd (ne refl)
parse_uint-digits bound n (String.◌∷◌ c s) ne e = ground arith

show_zero : show 0 ≡ "0"
unfolding show
show_zero = refl

show-ne-nil : (n : ℕ) → show n ≢ ""
unfolding show digits_from
show-ne-nil n e =
    let empty = digits_from-show_from (suc n) (suc n) n "" (omega arith) (omega arith) in
    let told = sym (ap (digits_from (suc n) 0) e) ∙ empty in
    let none_left : n ≡ 0 = ground (arith, told) in
    cons≢nil (sym show_zero ∙ ap show (sym none_left) ∙ e)

-- A number that fits is read back from its text.
pub parse_uint-show : (bound n : ℕ) → n < bound → parse_uint bound (show n) ≡ ok n
unfolding show
parse_uint-show bound n h =
    parse_uint-digits bound n (show n) (show-ne-nil n)
      (digits_from-show_from bound (suc n) n "" (omega arith) h ∙ unfold digits_from in refl)
