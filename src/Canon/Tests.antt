-- ===== src/Canon/Tests.antt =====
-- `AppendString` on small strings, and its theorem at one.
use waldo.Base.{◌≡◌, refl, some, [], ◌∷◌, ◌++◌, arith}
use waldo.Base.Bytes.{Bytes}
use waldo.Canon.{hex_digit, escape_byte, escape_loop, append_string}
use waldo.Canon.Decode.{between, read}
use waldo.Canon.RoundTrip.{read-append_string}

-- A letter, a quotation mark, a line break and a control byte.
abbrev text : Bytes
text = b'a' ∷ b'"' ∷ 10 ∷ 1 ∷ []

append_text :
    append_string [] text
    ≡ b'"' ∷ b'a' ∷ b'\\' ∷ b'"' ∷ b'\\' ∷ b'n' ∷ b'\\' ∷ b'u' ∷ b'0' ∷ b'0' ∷ b'0' ∷ b'1' ∷ b'"'
      ∷ []
unfolding append_string escape_loop escape_byte hex_digit
append_text = refl

read-append_string_example :
    (tail : Bytes) × (append_string (b'[' ∷ []) text ≡ (b'[' ∷ []) ++ b'"' ∷ tail)
    × (read between [] (tail ++ b']' ∷ []) ≡ some (text, b']' ∷ []))
read-append_string_example =
    read-append_string (b'[' ∷ []) text (b']' ∷ [])
      (omega arith, (omega arith, (omega arith, (omega arith, tt))))
