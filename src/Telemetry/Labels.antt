-- ===== src/Telemetry/Labels.antt =====
-- The values of labels in the Prometheus text of src/telemetry/mod.rs, and a reader of them by the
-- rules of that text format.
use Prim.Native.Char.{Char, code}
use text.Mathlib.TextLemmas.{cons-append, nil-append, append-nil, append_assoc}
use text.Mathlib.TextEquality.{Char-path}
use ferrum_proxy.Common.{
  ℕ, String, Bool, true, false, ◌||◌, ◌≡◌, refl, ◌∙◌, ap, sym, Option, none, some, nat_beq,
  if◌then◌else◌, ◌⧺◌, Bool-cases, nat_beq_iff, inl, inr, arith, contains_char,
}
use ferrum_proxy.Telemetry.Render.{replace, escape_label_value}

abbrev line_feed : ℕ
line_feed = 10

abbrev push : Char → Option (String × String) → Option (String × String)
push c none = none
push c (some (value, rest)) = some (String.◌∷◌ c value, rest)

-- The value up to the closing quote, and the text behind the quote. `escaped` says that a backslash
-- came before; a line feed ends the line, so that the value is never closed.
unfoldable pub read_label : Bool → String → Option (String × String)
read_label escaped String.[] = none
read_label true (String.◌∷◌ c s) =
    let more = read_label false s in
    if nat_beq (code c) b'\\' || nat_beq (code c) b'"'
    then push c more
    else if nat_beq (code c) b'n'
    then push "\n" more
    else none
read_label false (String.◌∷◌ c s) =
    let more = read_label false s in
    let next = read_label true s in
    if nat_beq (code c) b'"'
    then some ("", s)
    else if nat_beq (code c) b'\\'
    then next
    else if nat_beq (code c) line_feed
    then none
    else push c more

replace-append : (c : ℕ) (by s t : String) → replace c by (s ⧺ t) ≡ replace c by s ⧺ replace c by t
unfolding replace
replace-append c by String.[] t =
    ap (replace c by) (nil-append t) ∙ sym (nil-append (replace c by t))
replace-append c by (String.◌∷◌ d s) t =
    let w = if nat_beq (code d) c then by else String.◌∷◌ d "" in
    ap (replace c by) (cons-append d s t)
    ∙ ap (λ x. w ⧺ x) (replace-append c by s t)
    ∙ sym (append_assoc w (replace c by s) (replace c by t))

-- A character is escaped on its own.
abbrev escaped_char : Char → String
escaped_char c =
    if nat_beq (code c) b'\\'
    then "\\\\"
    else if nat_beq (code c) b'"'
    then "\\\""
    else String.◌∷◌ c ""

escape-cons :
    (c : Char) (v : String)
    → escape_label_value (String.◌∷◌ c v) ≡ escaped_char c ⧺ escape_label_value v
unfolding escape_label_value replace
escape-cons c v = elim (Bool-cases (nat_beq (code c) b'\\')) [
  | inl slash ↦ rw slash (replace-append b'"' "\\\"" "\\\\" (replace b'\\' "\\\\" v))
  | inr other ↦ rw other (
      replace-append b'"' "\\\"" (String.◌∷◌ c "") (replace b'\\' "\\\\" v)
      ∙ ap (λ x. x ⧺ escape_label_value v) (append-nil _))
]

one-append : (c : Char) (t : String) → String.◌∷◌ c "" ⧺ t ≡ String.◌∷◌ c t
one-append c t = cons-append c "" t ∙ ap (String.◌∷◌ c) (nil-append t)

two-append :
    (c d : Char) (t : String) → String.◌∷◌ c (String.◌∷◌ d "") ⧺ t ≡ String.◌∷◌ c (String.◌∷◌ d t)
two-append c d t = cons-append c (String.◌∷◌ d "") t ∙ ap (String.◌∷◌ c) (one-append d t)

read_label-char :
    (c : Char) (t : String)
    → nat_beq (code c) line_feed ≡ false
    → read_label false (escaped_char c ⧺ t) ≡ push c (read_label false t)
unfolding read_label
read_label-char c t h = elim (Bool-cases (nat_beq (code c) b'\\')) [
  | inl slash ↦
      let same : c ≡ "\\" = Char-path c "\\" ((nat_beq_iff (code c) b'\\').0 slash) in
      rw same (ap (read_label false) (two-append "\\" "\\" t))
  | inr other ↦ elim (Bool-cases (nat_beq (code c) b'"')) [
    | inl quote ↦
        let same : c ≡ "\"" = Char-path c "\"" ((nat_beq_iff (code c) b'"').0 quote) in
        rw same (ap (read_label false) (two-append "\\" "\"" t))
    | inr plain ↦ rw other (rw plain (ap (read_label false) (one-append c t) ∙ ground arith))
  ]
]

-- A reader of label values by the rules of the Prometheus text reads an escaped value without
-- line feeds, up to the closing quote, as the value itself and leaves the text behind the quote.
pub read_label-escape :
    (v rest : String)
    → contains_char line_feed v ≡ false
    → read_label false (escape_label_value v ⧺ "\"" ⧺ rest) ≡ some (v, rest)
unfolding contains_char escape_label_value
read_label-escape String.[] rest h =
    ap (read_label false) (nil-append ("\"" ⧺ rest) ∙ one-append "\"" rest)
    ∙ unfold read_label in refl
read_label-escape (String.◌∷◌ c v) rest h =
    let tail = "\"" ⧺ rest in
    ap (λ x. read_label false (x ⧺ tail)) (escape-cons c v)
    ∙ ap (read_label false) (append_assoc (escaped_char c) (escape_label_value v) tail)
    ∙ read_label-char c (escape_label_value v ⧺ tail) (ground arith)
    ∙ ap (push c) (read_label-escape v rest (ground arith))
