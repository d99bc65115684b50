-- ===== src/Tokenizer/Utf8.antt =====
-- What internal/tokenizer/trained.go uses of Go's unicode/utf8 and unicode: `DecodeRune`, and the
-- letter, number and space tables of Unicode as a parameter.
use waldo.Base.{ℕ, ◌+◌, ◌*◌, ◌-◌, Bool, ◌&&◌, ◌||◌, [], ◌∷◌, ltb, leb, ◌==◌, if◌then◌else◌}
use waldo.Base.Bytes.{Bytes}

-- The tables of the package unicode, which are data of Go's library.
pub record Tables : Type 0 where
  pub is_letter : ℕ → Bool
  pub is_number : ℕ → Bool
  pub is_space : ℕ → Bool

abbrev pub rune_error : ℕ
rune_error = 0xFFFD

pub record Rune : Type 0 where
  pub value : ℕ
  pub size : ℕ

abbrev invalid : Rune
invalid = record { value = rune_error; size = 1 }

in_range : ℕ → ℕ → ℕ → Bool
in_range lo hi b = leb lo b && leb b hi

-- The range of a second byte after the first byte of a three or four byte form.
second_ok : ℕ → ℕ → Bool
unfolding in_range
second_ok p0 b1 =
    if p0 == 0xE0
    then in_range 0xA0 0xBF b1
    else if p0 == 0xED
    then in_range 0x80 0x9F b1
    else if p0 == 0xF0
    then in_range 0x90 0xBF b1
    else if p0 == 0xF4
    then in_range 0x80 0x8F b1
    else in_range 0x80 0xBF b1

two : ℕ → Bytes → Rune
unfolding in_range
two p0 [] = invalid
two p0 (b1 ∷ _) =
    if in_range 0x80 0xBF b1
    then record { value = (p0 - 0xC0) * 64 + (b1 - 0x80); size = 2 }
    else invalid

three : ℕ → Bytes → Rune
unfolding in_range second_ok
three p0 (b1 ∷ b2 ∷ _) =
    if second_ok p0 b1 && in_range 0x80 0xBF b2
    then record { value = (p0 - 0xE0) * 4096 + (b1 - 0x80) * 64 + (b2 - 0x80); size = 3 }
    else invalid
three p0 _ = invalid

four : ℕ → Bytes → Rune
unfolding in_range second_ok
four p0 (b1 ∷ b2 ∷ b3 ∷ _) =
    if second_ok p0 b1 && in_range 0x80 0xBF b2 && in_range 0x80 0xBF b3
    then record {
      value = (p0 - 0xF0) * 262144 + (b1 - 0x80) * 4096 + (b2 - 0x80) * 64 + (b3 - 0x80);
      size = 4;
    }
    else invalid
four p0 _ = invalid

-- utf8.DecodeRune: the first rune and its width; an invalid byte is a rune error of width 1.
unfoldable pub decode_rune : Bytes → Rune
unfolding two three four
decode_rune [] = record { value = rune_error; size = 0 }
decode_rune (p0 ∷ rest) =
    if ltb p0 0x80
    then record { value = p0; size = 1 }
    else if ltb p0 0xC2 || ltb 0xF4 p0
    then invalid
    else if ltb p0 0xE0
    then two p0 rest
    else if ltb p0 0xF0
    then three p0 rest
    else four p0 rest
