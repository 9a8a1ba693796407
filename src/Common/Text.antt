-- ===== src/Common/Text.antt =====
-- Texts: `format!` of a number, `trim`, and prefixes.
use Prim.Native.Nat.{ℕ, zero, suc, ◌/◌, ◌%◌}
use Prim.Native.Char.{Char, code}
use Prim.Native.String.{String}
use Prim.Native.String
use mathlib.Core.Path.{◌≡◌, refl}
use mathlib.Core.Bool.{Bool, true, ◌&&◌, ◌||◌}
use text.Mathlib.Text.{starts_with}
use ferrum_proxy.Common.Tests.{if◌then◌else◌, leb, nat_beq, ltb}
pub use text.Mathlib.Text.{starts_with}
pub use Prim.Native.String.{len}

-- Texts one after the other, as `format!` writes them.
infixr 65 ◌⧺◌
abbrev pub ◌⧺◌ : String → String → String
s ⧺ t = String.◌++◌ s t

unfoldable pub digit : ℕ → String
digit n =
    if nat_beq n 0
    then "0"
    else if nat_beq n 1
    then "1"
    else if nat_beq n 2
    then "2"
    else if nat_beq n 3
    then "3"
    else if nat_beq n 4
    then "4"
    else if nat_beq n 5
    then "5"
    else if nat_beq n 6
    then "6"
    else if nat_beq n 7
    then "7"
    else if nat_beq n 8
    then "8"
    else "9"

-- The digits of `n` in front of `rest`. A number has at most as many digits as the fuel that
-- `show` gives, its own value plus one.
unfoldable pub show_from : ℕ → ℕ → String → String
show_from zero n rest = rest
show_from (suc f) n rest =
    let text = digit (n % 10) ⧺ rest in
    let more = show_from f (n / 10) text in if ltb n 10 then text else more

-- `{}` of an unsigned number
unfoldable pub show : ℕ → String
unfolding show_from digit
show n = show_from (suc n) n ""

-- `char::is_whitespace`
unfoldable pub is_whitespace : Char → Bool
is_whitespace c =
    let n = code c in
    (leb 0x9 n && leb n 0xd)
    || nat_beq n 0x20
    || nat_beq n 0x85
    || nat_beq n 0xa0
    || nat_beq n 0x1680
    || (leb 0x2000 n && leb n 0x200a)
    || nat_beq n 0x2028
    || nat_beq n 0x2029
    || nat_beq n 0x202f
    || nat_beq n 0x205f
    || nat_beq n 0x3000

-- `s.trim().is_empty()`: every character is white space.
unfoldable pub is_blank : String → Bool
unfolding is_whitespace
is_blank String.[] = true
is_blank (String.◌∷◌ c s) = is_whitespace c && is_blank s

show_test : show 16777216 ≡ "16777216"
unfolding show
show_test = refl

-- A hexadecimal digit
abbrev pub hex_digit : ℕ → String
hex_digit n =
    if nat_beq n 10
    then "a"
    else if nat_beq n 11
    then "b"
    else if nat_beq n 12
    then "c"
    else if nat_beq n 13
    then "d"
    else if nat_beq n 14
    then "e"
    else if nat_beq n 15
    then "f"
    else show n

-- `str::contains` of a text
unfoldable pub contains_text : String → String → Bool
contains_text needle String.[] = starts_with "" needle
contains_text needle (String.◌∷◌ c s) =
    let later = contains_text needle s in starts_with (String.◌∷◌ c s) needle || later
