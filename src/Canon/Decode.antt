-- ===== src/Canon/Decode.antt =====
-- A reader of JSON strings (RFC 8259, section 7) over bytes, written for the specification of
-- `AppendString`: it is no code of the program. It reads behind the opening quote, and takes a
-- `\u` escape for the byte that it denotes, if it denotes one.
use waldo.Base.{
  ℕ, zero, suc, ◌+◌, ◌-◌, ◌*◌, true, false, ◌&&◌, Option, none, some, [], ◌∷◌, ◌++◌, ltb, leb, ◌==◌,
  if◌then◌else◌,
}
use waldo.Base.Bytes.{Bytes}

-- Between characters, behind a backslash, or with hexadecimal digits to read and those read.
pub data Mode : Type 0 where
  between : Mode
  escaped : Mode
  digits : ℕ → ℕ → Mode

unfoldable pub hex_value : ℕ → Option ℕ
hex_value c =
    if leb b'0' c && leb c b'9'
    then some (c - b'0')
    else if leb b'a' c && leb c b'f'
    then some (c - 87)
    else if leb b'A' c && leb c b'F'
    then some (c - 55)
    else none

-- The character of a short escape.
unfoldable pub short_escape : ℕ → Option ℕ
short_escape c =
    if c == b'"'
    then some b'"'
    else if c == b'\\'
    then some b'\\'
    else if c == b'/'
    then some b'/'
    else if c == b'b'
    then some 8
    else if c == b't'
    then some 9
    else if c == b'n'
    then some 10
    else if c == b'f'
    then some 12
    else if c == b'r'
    then some 13
    else none

-- The text read and what stands behind the closing quote.
unfoldable pub read : Mode → Bytes → Bytes → Option (Bytes × Bytes)
read mode out [] = none
read between out (c ∷ s) = elim (c == b'"') [
  | true ↦ some (out, s)
  | false ↦ elim (c == b'\\') [
    | true ↦ read escaped out s
    | false ↦ elim (ltb c 0x20) [ true ↦ none | false ↦ read between (out ++ c ∷ []) s ]
  ]
]
read escaped out (c ∷ s) = elim (c == b'u') [
  | true ↦ read (digits 3 0) out s
  | false ↦ elim (short_escape c) [ none ↦ none | some d ↦ read between (out ++ d ∷ []) s ]
]
read (digits (suc left) value) out (c ∷ s) = elim (hex_value c) [
  | none ↦ none
  | some d ↦ read (digits left (value * 16 + d)) out s
]
read (digits zero value) out (c ∷ s) = elim (hex_value c) [
  | none ↦ none
  | some d ↦ elim (ltb (value * 16 + d) 256) [
    | true ↦ read between (out ++ (value * 16 + d) ∷ []) s
    | false ↦ none
  ]
]
