-- ===== src/Telemetry/Quote.antt =====
-- The `Debug` format of a text, with which src/telemetry/mod.rs quotes the values of a log line.
use Prim.Native.Char.{Char, code}
use ferrum_proxy.Common.{
  ℕ, zero, suc, ◌/◌, ◌%◌, ◌≡◌, refl, String, Bool, true, ◌&&◌, ◌||◌, if◌then◌else◌, nat_beq, leb,
  ltb, ◌⧺◌, hex_digit, show,
}

-- The hexadecimal digits of `n` in front of `rest`, without zeros before them. A code point has six
-- at most.
unfoldable pub hex_from : ℕ → ℕ → String → String
hex_from zero n rest = rest
hex_from (suc f) n rest =
    let text = hex_digit (n % 16) ⧺ rest in
    let more = hex_from f (n / 16) text in if ltb n 16 then text else more

-- A character inside the quotes. `is_printable` says which characters beyond ASCII stand for
-- themselves; the tables for it are those of Unicode.
unfoldable pub escape_debug : (Char → Bool) → Char → String
unfolding hex_from
escape_debug is_printable c =
    let n = code c in
    if nat_beq n 0
    then "\\0"
    else if nat_beq n b'\t'
    then "\\t"
    else if nat_beq n b'\r'
    then "\\r"
    else if nat_beq n b'\n'
    then "\\n"
    else if nat_beq n b'"'
    then "\\\""
    else if nat_beq n b'\\'
    then "\\\\"
    else if (leb 0x20 n && leb n 0x7e) || (leb 0x80 n && is_printable c)
    then String.◌∷◌ c ""
    else "\\u{" ⧺ hex_from 6 n "}"

unfoldable pub escape_each : (Char → Bool) → String → String
unfolding escape_debug
escape_each is_printable String.[] = ""
escape_each is_printable (String.◌∷◌ c s) = escape_debug is_printable c ⧺ escape_each is_printable s

unfoldable pub quote : (Char → Bool) → String → String
unfolding escape_each
quote is_printable value = "\"" ⧺ escape_each is_printable value ⧺ "\""

quote_test : quote (λ c. true) "a\"b\n\u{7f}é" ≡ "\"a\\\"b\\n\\u{7f}é\""
unfolding quote show
quote_test = refl
