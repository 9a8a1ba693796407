-- ===== src/Common/HeaderText.antt =====
-- The functions of `str` that src/ uses on header values.
use Prim.Native.Nat.{ℕ}
use Prim.Native.Char.{Char, code}
use Prim.Native.String.{String}
use mathlib.Core.Path.{◌≡◌, refl}
use mathlib.Core.Bool.{Bool, true, false}
use mathlib.Core.List.{List, [], ◌∷◌}
use ferrum_proxy.Common.Tests.{if◌then◌else◌, nat_beq}
use ferrum_proxy.Common.Text.{is_whitespace}

pub trim_start : String → String
unfolding is_whitespace
trim_start String.[] = ""
trim_start (String.◌∷◌ c s) =
    let rest = trim_start s in if is_whitespace c then rest else String.◌∷◌ c s

abbrev keep_char : Bool → Char → String → String
keep_char true c String.[] = ""
keep_char true c (String.◌∷◌ d s) = String.◌∷◌ c (String.◌∷◌ d s)
keep_char false c s = String.◌∷◌ c s

pub trim_end : String → String
unfolding is_whitespace
trim_end String.[] = ""
trim_end (String.◌∷◌ c s) = keep_char (is_whitespace c) c (trim_end s)

-- `str::trim`
unfoldable pub trim : String → String
unfolding trim_start trim_end
trim s = trim_start (trim_end s)

-- `str::split` at one character; `cur` is the piece so far.
abbrev add_char : Char → List String → List String
add_char c [] = String.◌∷◌ c "" ∷ []
add_char c (piece ∷ rest) = String.◌∷◌ c piece ∷ rest

unfoldable pub split : ℕ → String → List String
split separator String.[] = "" ∷ []
split separator (String.◌∷◌ c s) =
    let rest = split separator s in
    if nat_beq (code c) separator then "" ∷ rest else add_char c rest

-- `str::to_ascii_lowercase`
lower : Char → Char
lower c =
    let n = code c in
    if nat_beq n b'A'
    then "a"
    else if nat_beq n b'B'
    then "b"
    else if nat_beq n b'C'
    then "c"
    else if nat_beq n b'D'
    then "d"
    else if nat_beq n b'E'
    then "e"
    else if nat_beq n b'F'
    then "f"
    else if nat_beq n b'G'
    then "g"
    else if nat_beq n b'H'
    then "h"
    else if nat_beq n b'I'
    then "i"
    else if nat_beq n b'J'
    then "j"
    else if nat_beq n b'K'
    then "k"
    else if nat_beq n b'L'
    then "l"
    else if nat_beq n b'M'
    then "m"
    else if nat_beq n b'N'
    then "n"
    else if nat_beq n b'O'
    then "o"
    else if nat_beq n b'P'
    then "p"
    else if nat_beq n b'Q'
    then "q"
    else if nat_beq n b'R'
    then "r"
    else if nat_beq n b'S'
    then "s"
    else if nat_beq n b'T'
    then "t"
    else if nat_beq n b'U'
    then "u"
    else if nat_beq n b'V'
    then "v"
    else if nat_beq n b'W'
    then "w"
    else if nat_beq n b'X'
    then "x"
    else if nat_beq n b'Y'
    then "y"
    else if nat_beq n b'Z'
    then "z"
    else c

unfoldable pub to_ascii_lowercase : String → String
unfolding lower
to_ascii_lowercase String.[] = ""
to_ascii_lowercase (String.◌∷◌ c s) = String.◌∷◌ (lower c) (to_ascii_lowercase s)

-- `str::contains` of one character
unfoldable pub contains_char : ℕ → String → Bool
contains_char n String.[] = false
contains_char n (String.◌∷◌ c s) =
    let rest = contains_char n s in if nat_beq (code c) n then true else rest

trim_test : trim " \t keep-alive " ≡ "keep-alive"
unfolding trim
trim_test = refl

split_test : split b',' "a,,b" ≡ "a" ∷ "" ∷ "b" ∷ []
unfolding split
split_test = refl

lower_test : to_ascii_lowercase "X-Remove-Me" ≡ "x-remove-me"
unfolding to_ascii_lowercase
lower_test = refl
