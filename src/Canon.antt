-- ===== src/Canon.antt =====
-- internal/canon: `AppendString`, the canonical JSON string.
pub mod Decode
pub mod RoundTrip
mod Tests
use waldo.Base.{ℕ, ◌+◌, ◌/◌, ◌%◌, List, [], ◌∷◌, ◌++◌, ltb, leb, ◌==◌, if◌then◌else◌}
use waldo.Base.Bytes.{Bytes}

-- `hexDigits[d]`
pub hex_digit : ℕ → ℕ
hex_digit d = if ltb d 10 then b'0' + d else 87 + d

-- What the loop appends for the byte `c`; `c>>4` and `c&0xf` are the halves of the byte.
pub escape_byte : ℕ → Bytes
escape_byte c =
    if c == b'"'
    then b'\\' ∷ b'"' ∷ []
    else if c == b'\\'
    then b'\\' ∷ b'\\' ∷ []
    else if leb 0x20 c
    then c ∷ []
    else if c == 8
    then b'\\' ∷ b'b' ∷ []
    else if c == 9
    then b'\\' ∷ b't' ∷ []
    else if c == 10
    then b'\\' ∷ b'n' ∷ []
    else if c == 12
    then b'\\' ∷ b'f' ∷ []
    else if c == 13
    then b'\\' ∷ b'r' ∷ []
    else b'\\' ∷ b'u' ∷ b'0' ∷ b'0' ∷ hex_digit (c / 16) ∷ hex_digit (c % 16) ∷ []

pub escape_loop : Bytes → Bytes → Bytes
escape_loop dst [] = dst
escape_loop dst (c ∷ s) = escape_loop (dst ++ escape_byte c) s

-- `AppendString`
pub append_string : Bytes → Bytes → Bytes
append_string dst s = escape_loop (dst ++ b'"' ∷ []) s ++ b'"' ∷ []
