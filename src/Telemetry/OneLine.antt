-- ===== src/Telemetry/OneLine.antt =====
-- The log lines of src/telemetry/mod.rs stand on one line each.
use Prim.Native.Char.{Char, code}
use text.Mathlib.TextLemmas.{cons-append, nil-append}
use text.Mathlib.TextEquality.{Char-path}
use ferrum_proxy.Common.{
  ℕ, zero, suc, ◌/◌, ◌%◌, ◌<◌, ◌≡◌, refl, sym, subst, String, Bool, true, false, ◌&&◌, ◌||◌, List,
  [], ◌∷◌, All, if◌then◌else◌, nat_beq, leb, ltb, ◌⧺◌, digit, show_from, show, hex_digit,
  digit-IsDigit, contains_char, Bool-cases, nat_beq_iff, inl, inr, arith,
}
use ferrum_proxy.Telemetry.{LogLine}
use ferrum_proxy.Telemetry.Quote.{hex_from, escape_debug, escape_each, quote}
use ferrum_proxy.Telemetry.Lines.{fields_text, line_text}

-- No line feed is in the text.
abbrev pub IsOneLine : String → Type 0
IsOneLine s = contains_char b'\n' s ≡ false

append-IsOneLine : (s t : String) → IsOneLine s → IsOneLine t → IsOneLine (s ⧺ t)
unfolding contains_char
append-IsOneLine String.[] t h k = subst IsOneLine (sym (nil-append t)) k
append-IsOneLine (String.◌∷◌ c s) t h k =
    let later = append-IsOneLine s t (ground arith) k in
    subst IsOneLine (sym (cons-append c s t)) (ground (arith, later, h))

digit-IsOneLine : (n : ℕ) → n < 10 → IsOneLine (digit n)
unfolding contains_char
digit-IsOneLine n h = let (c, e, value) = digit-IsDigit n h in rw e (ground (arith, value))

show_from-IsOneLine : (f n : ℕ) (rest : String) → IsOneLine rest → IsOneLine (show_from f n rest)
unfolding show_from
show_from-IsOneLine zero n rest h = h
show_from-IsOneLine (suc f) n rest h =
    let text = append-IsOneLine (digit (n % 10)) rest (digit-IsOneLine (n % 10) (omega arith)) h in
    elim (Bool-cases (ltb n 10)) [
      | inl one ↦ rw one text
      | inr more ↦ rw more (show_from-IsOneLine f (n / 10) (digit (n % 10) ⧺ rest) text)
    ]

show-IsOneLine : (n : ℕ) → IsOneLine (show n)
unfolding show contains_char
show-IsOneLine n = show_from-IsOneLine (suc n) n "" refl

if-IsOneLine :
    (b : Bool) (s t : String) → IsOneLine s → IsOneLine t → IsOneLine (if b then s else t)
if-IsOneLine true s t h k = h
if-IsOneLine false s t h k = k

hex_digit-IsOneLine : (n : ℕ) → IsOneLine (hex_digit n)
unfolding contains_char
hex_digit-IsOneLine n = if-IsOneLine (nat_beq n 10) "a" _ refl (
    if-IsOneLine (nat_beq n 11) "b" _ refl (
      if-IsOneLine (nat_beq n 12) "c" _ refl (
        if-IsOneLine (nat_beq n 13) "d" _ refl (
          if-IsOneLine (nat_beq n 14) "e" _ refl
            (if-IsOneLine (nat_beq n 15) "f" _ refl (show-IsOneLine n))))))

hex_from-IsOneLine : (f n : ℕ) (rest : String) → IsOneLine rest → IsOneLine (hex_from f n rest)
unfolding hex_from
hex_from-IsOneLine zero n rest h = h
hex_from-IsOneLine (suc f) n rest h =
    let text = append-IsOneLine (hex_digit (n % 16)) rest (hex_digit-IsOneLine (n % 16)) h in
    elim (Bool-cases (ltb n 16)) [
      | inl one ↦ rw one text
      | inr more ↦ rw more (hex_from-IsOneLine f (n / 16) (hex_digit (n % 16) ⧺ rest) text)
    ]

module _ (is_printable : Char → Bool) where
  -- A line feed is escaped, and no escape has one.
  escape_debug-IsOneLine : (c : Char) → IsOneLine (escape_debug is_printable c)
  unfolding escape_debug contains_char
  escape_debug-IsOneLine c = elim (Bool-cases (nat_beq (code c) b'\n')) [
    | inl feed ↦
        let same : c ≡ "\n" = Char-path c "\n" ((nat_beq_iff (code c) b'\n').0 feed) in rw same refl
    | inr other ↦
        let plain : IsOneLine (String.◌∷◌ c "") = rw other refl in
        let hexed : IsOneLine ("\\u{" ⧺ hex_from 6 (code c) "}") =
          append-IsOneLine "\\u{" (hex_from 6 (code c) "}") refl
            (hex_from-IsOneLine 6 (code c) "}" refl) in
        if-IsOneLine (nat_beq (code c) 0) "\\0" _ refl (
          if-IsOneLine (nat_beq (code c) b'\t') "\\t" _ refl (
            if-IsOneLine (nat_beq (code c) b'\r') "\\r" _ refl (
              if-IsOneLine (nat_beq (code c) b'\n') "\\n" _ refl (
                if-IsOneLine (nat_beq (code c) b'"') "\\\"" _ refl (
                  if-IsOneLine (nat_beq (code c) b'\\') "\\\\" _ refl (
                    if-IsOneLine
                      ((leb 0x20 (code c) && leb (code c) 0x7e)
                        || (leb 0x80 (code c) && is_printable c))
                      (String.◌∷◌ c "") ("\\u{" ⧺ hex_from 6 (code c) "}") plain hexed))))))
  ]

  escape_each-IsOneLine : (s : String) → IsOneLine (escape_each is_printable s)
  unfolding escape_each contains_char
  escape_each-IsOneLine String.[] = refl
  escape_each-IsOneLine (String.◌∷◌ c s) =
      append-IsOneLine (escape_debug is_printable c) (escape_each is_printable s)
        (escape_debug-IsOneLine c) (escape_each-IsOneLine s)

  quote-IsOneLine : (value : String) → IsOneLine (quote is_printable value)
  unfolding quote contains_char
  quote-IsOneLine value =
      append-IsOneLine "\"" (escape_each is_printable value ⧺ "\"") refl
        (append-IsOneLine (escape_each is_printable value) "\"" (escape_each-IsOneLine value) refl)

  fields_text-IsOneLine :
      (fields : List (String × String))
      → All (λ f. IsOneLine f.0) fields
      → IsOneLine (fields_text is_printable fields)
  unfolding fields_text contains_char
  fields_text-IsOneLine [] h = refl
  fields_text-IsOneLine ((key, value) ∷ rest) (h, hs) =
      let later = fields_text-IsOneLine rest hs in
      append-IsOneLine " " (key ⧺ "=" ⧺ quote is_printable value ⧺ fields_text is_printable rest)
        refl
        (append-IsOneLine key ("=" ⧺ quote is_printable value ⧺ fields_text is_printable rest) h (
          append-IsOneLine "=" (quote is_printable value ⧺ fields_text is_printable rest) refl (
            append-IsOneLine (quote is_printable value) (fields_text is_printable rest)
              (quote-IsOneLine value) later)))

  -- Whatever the values of its fields are, the text of a log line has no line feed in it if its
  -- level, its event and the keys of its fields have none.
  pub line_text-IsOneLine :
      (ts_millis : ℕ) (line : LogLine)
      → IsOneLine line.level
      → IsOneLine line.event
      → All (λ f. IsOneLine f.0) line.fields
      → IsOneLine (line_text is_printable ts_millis line)
  unfolding line_text contains_char
  line_text-IsOneLine ts_millis line level event keys =
      let fields = fields_text is_printable line.fields in
      let named = line.event ⧺ fields in
      let levelled = line.level ⧺ " event=" ⧺ named in
      let stamped = show ts_millis ⧺ " level=" ⧺ levelled in
      let named_line =
        append-IsOneLine line.event fields event (fields_text-IsOneLine line.fields keys) in
      let levelled_line =
        append-IsOneLine line.level (" event=" ⧺ named) level
          (append-IsOneLine " event=" named refl named_line) in
      append-IsOneLine "ts=" stamped refl (
        append-IsOneLine (show ts_millis) (" level=" ⧺ levelled) (show-IsOneLine ts_millis)
          (append-IsOneLine " level=" levelled refl levelled_line))
