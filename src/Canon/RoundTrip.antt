-- ===== src/Canon/RoundTrip.antt =====
-- `AppendString` of internal/canon/canon.go and then the reader of JSON strings.
use waldo.Base.{
  ℕ, ◌+◌, ◌*◌, ◌/◌, ◌%◌, ◌<◌, ◌≤◌, ◌≡◌, refl, sym, subst, inl, inr, Bool-cases, suc, ap, ◌∙◌, false,
  some, [], ◌∷◌, ◌++◌, append-nil, append_assoc, arith, leb, ◌==◌,
}
use waldo.Base.Bytes.{Bytes, IsBytes}
use waldo.Canon.{hex_digit, escape_byte, escape_loop, append_string}
use waldo.Canon.Decode.{between, digits, hex_value, short_escape, read}

hex_value-hex_digit : (d : ℕ) → d < 16 → hex_value (hex_digit d) ≡ some d
unfolding hex_value hex_digit
hex_value-hex_digit d h = ground arith

read-plain :
    (c : ℕ) (out rest : Bytes)
    → 32 ≤ c
    → (c == b'"') ≡ false
    → (c == b'\\') ≡ false
    → read between out (c ∷ rest) ≡ read between (out ++ c ∷ []) rest
unfolding read
read-plain c out rest h q b = ground arith

read-digit :
    (c d left value : ℕ) (out rest : Bytes)
    → hex_value c ≡ some d
    → read (digits (suc left) value) out (c ∷ rest) ≡ read (digits left (value * 16 + d)) out rest
unfolding read
read-digit c d left value out rest h = ground (arith, h)

read-last_digit :
    (c d value : ℕ) (out rest : Bytes)
    → hex_value c ≡ some d
    → value * 16 + d < 256
    → read (digits 0 value) out (c ∷ rest) ≡ read between (out ++ (value * 16 + d) ∷ []) rest
unfolding read
read-last_digit c d value out rest h b = ground (arith, h)

read-escape :
    (out rest : Bytes) → read between out (b'\\' ∷ b'u' ∷ rest) ≡ read (digits 3 0) out rest
unfolding read
read-escape out rest = refl

hex_value-zero : hex_value b'0' ≡ some 0
unfolding hex_value
hex_value-zero = refl

read-unicode :
    (c : ℕ) (out rest : Bytes)
    → c < 256
    → read between out (b'\\' ∷ b'u' ∷ b'0' ∷ b'0' ∷ hex_digit (c / 16) ∷ hex_digit (c % 16) ∷ rest)
      ≡ read between (out ++ c ∷ []) rest
read-unicode c out rest h =
    read-escape out (b'0' ∷ b'0' ∷ high ∷ low ∷ rest)
    ∙ read-digit b'0' 0 2 0 out (b'0' ∷ high ∷ low ∷ rest) hex_value-zero
    ∙ read-digit b'0' 0 1 0 out (high ∷ low ∷ rest) hex_value-zero
    ∙ read-digit high (c / 16) 0 0 out (low ∷ rest) (hex_value-hex_digit (c / 16) (omega arith))
    ∙ ap (λ v. read (digits 0 v) out (low ∷ rest)) (omega arith)
    ∙ read-last_digit low (c % 16) (c / 16) out rest (hex_value-hex_digit (c % 16) (omega arith))
        (omega arith)
    ∙ ap (λ d. read between (out ++ d ∷ []) rest) whole
  where
    high : ℕ
    high = hex_digit (c / 16)

    low : ℕ
    low = hex_digit (c % 16)

    whole : (c / 16) * 16 + c % 16 ≡ c
    whole = omega arith

module _ (c : ℕ) (out rest : Bytes) where
  -- A byte with an escape of two characters, which is known.
  read-short :
      (k : ℕ)
      → c ≡ k
      → read between out (escape_byte k ++ rest) ≡ read between (out ++ k ∷ []) rest
      → read between out (escape_byte c ++ rest) ≡ read between (out ++ c ∷ []) rest
  read-short k e known =
      subst (λ d. read between out (escape_byte d ++ rest) ≡ read between (out ++ d ∷ []) rest)
        (sym e) known

read-escape_byte :
    (c : ℕ) (out rest : Bytes)
    → c < 256
    → read between out (escape_byte c ++ rest) ≡ read between (out ++ c ∷ []) rest
unfolding escape_byte read short_escape
read-escape_byte c out rest h = elim (Bool-cases (c == b'"')) [
  | inl same ↦ read-short c out rest b'"' (ground arith) refl
  | inr no_quote ↦ elim (Bool-cases (c == b'\\')) [
    | inl same ↦ read-short c out rest b'\\' (ground arith) refl
    | inr no_backslash ↦ elim (Bool-cases (leb 0x20 c)) [
      | inl printed ↦
          rw (no_quote, no_backslash, printed)
            (read-plain c out rest (ground arith) no_quote no_backslash)
      | inr control ↦ control_byte no_quote no_backslash control
    ]
  ]
]
  where
    control_byte :
        (c == b'"') ≡ false
        → (c == b'\\') ≡ false
        → leb 0x20 c ≡ false
        → read between out (escape_byte c ++ rest) ≡ read between (out ++ c ∷ []) rest
    control_byte no_quote no_backslash control = elim (Bool-cases (c == 8)) [
      | inl same ↦ read-short c out rest 8 (ground arith) refl
      | inr no_b ↦ elim (Bool-cases (c == 9)) [
        | inl same ↦ read-short c out rest 9 (ground arith) refl
        | inr no_t ↦ elim (Bool-cases (c == 10)) [
          | inl same ↦ read-short c out rest 10 (ground arith) refl
          | inr no_n ↦ elim (Bool-cases (c == 12)) [
            | inl same ↦ read-short c out rest 12 (ground arith) refl
            | inr no_f ↦ elim (Bool-cases (c == 13)) [
              | inl same ↦ read-short c out rest 13 (ground arith) refl
              | inr no_r ↦
                  rw (no_quote, no_backslash, control, no_b, no_t, no_n, no_f, no_r)
                    (read-unicode c out rest h)
            ]
          ]
        ]
      ]
    ]

escape_loop-append : (dst s : Bytes) → escape_loop dst s ≡ dst ++ escape_loop [] s
unfolding escape_loop
escape_loop-append dst [] = sym (append-nil dst)
escape_loop-append dst (c ∷ s) =
    escape_loop-append (dst ++ escape_byte c) s
    ∙ append_assoc dst (escape_byte c) (escape_loop [] s)
    ∙ ap (λ zs. dst ++ zs) (sym (escape_loop-append (escape_byte c) s))

read-escape_loop :
    (s out rest : Bytes)
    → IsBytes s
    → read between out (escape_loop [] s ++ b'"' ∷ rest) ≡ some (out ++ s, rest)
unfolding escape_loop
read-escape_loop [] out rest h = unfold read in rw (append-nil out) refl
read-escape_loop (c ∷ s) out rest h =
    ap (λ zs. read between out (zs ++ b'"' ∷ rest)) (escape_loop-append (escape_byte c) s)
    ∙ ap (read between out) (append_assoc (escape_byte c) (escape_loop [] s) (b'"' ∷ rest))
    ∙ read-escape_byte c out (escape_loop [] s ++ b'"' ∷ rest) h.0
    ∙ read-escape_loop s (out ++ c ∷ []) rest h.1
    ∙ ap (λ zs. some (zs, rest)) (append_assoc out (c ∷ []) s)

-- For a string of bytes, `AppendString` leaves what it appends to in front, then an opening quote,
-- and a reader of JSON strings reads behind that quote the string itself and stops at what is
-- written after it.
pub read-append_string :
    (dst s rest : Bytes)
    → IsBytes s
    → (tail : Bytes) × (append_string dst s ≡ dst ++ b'"' ∷ tail)
      × (read between [] (tail ++ rest) ≡ some (s, rest))
unfolding append_string
read-append_string dst s rest h = (
  escape_loop [] s ++ b'"' ∷ [],
  ap (λ zs. zs ++ b'"' ∷ []) (escape_loop-append (dst ++ b'"' ∷ []) s)
      ∙ append_assoc (dst ++ b'"' ∷ []) (escape_loop [] s) (b'"' ∷ [])
      ∙ append_assoc dst (b'"' ∷ []) (escape_loop [] s ++ b'"' ∷ []),
  ap (read between []) (append_assoc (escape_loop [] s) (b'"' ∷ []) rest)
      ∙ read-escape_loop s [] rest h,
)
