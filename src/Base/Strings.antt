-- ===== src/Base/Strings.antt =====
-- What the code uses of Go's package strings, over bytes.
use Prim.Native.Nat.{ℕ, zero, suc, ◌-◌}
use mathlib.Core.Bool.{Bool, true, false, ◌&&◌, ◌||◌}
use mathlib.Core.Option.{Option, none, some}
use mathlib.Core.List.{List, [], ◌∷◌, ◌++◌}
use waldo.Base.Tests.{ltb, ◌==◌, if◌then◌else◌}
use waldo.Base.Lists.{length, any}
use waldo.Base.Bytes.{Bytes}

-- `strings.HasPrefix`
unfoldable pub has_prefix : Bytes → Bytes → Bool
has_prefix text [] = true
has_prefix [] (p ∷ prefix) = false
has_prefix (c ∷ text) (p ∷ prefix) = c == p && has_prefix text prefix

-- `strings.Index`, and none for -1.
unfoldable pub index : Bytes → Bytes → Option ℕ
unfolding has_prefix
index [] part = if has_prefix [] part then some 0 else none
index (c ∷ text) part =
    if has_prefix (c ∷ text) part
    then some 0
    else elim (index text part) [ none ↦ none | some k ↦ some (suc k) ]

-- The loop of `strings.Split`, with the bytes of the separator that are still to pass.
unfoldable pub split_loop : Bytes → ℕ → Bytes → Bytes → List Bytes
unfolding has_prefix
split_loop separator skip line [] = line ∷ []
split_loop separator (suc skip) line (c ∷ text) = split_loop separator skip line text
split_loop separator zero line (c ∷ text) = elim (has_prefix (c ∷ text) separator) [
  | true ↦ line ∷ split_loop separator (length separator - 1) [] text
  | false ↦ split_loop separator zero (line ++ c ∷ []) text
]

-- `strings.Split`, for a separator that is not empty.
unfoldable pub split : Bytes → Bytes → List Bytes
unfolding split_loop
split text separator = split_loop separator 0 [] text

-- `strings.Join`
unfoldable pub join : List Bytes → Bytes → Bytes
join [] separator = []
join (line ∷ []) separator = line
join (line ∷ next ∷ lines) separator = line ++ (separator ++ join (next ∷ lines) separator)

-- What stands before the byte in `strings.Cut`, if it is there.
unfoldable pub before : Bytes → ℕ → Option Bytes
before [] byte = none
before (c ∷ text) byte =
    if c == byte
    then some []
    else elim (before text byte) [ none ↦ none | some name ↦ some (c ∷ name) ]

-- `strings.TrimLeft` by a set of bytes.
unfoldable pub trim_left : Bytes → Bytes → Bytes
trim_left [] cutset = []
trim_left (c ∷ text) cutset = elim (any (λ b. b == c) cutset) [
  | true ↦ trim_left text cutset
  | false ↦ c ∷ text
]

-- `strings.TrimRight` by a set of bytes.
unfoldable pub trim_right : Bytes → Bytes → Bytes
trim_right [] cutset = []
trim_right (c ∷ text) cutset = elim (trim_right text cutset) [
  | [] ↦ if any (λ b. b == c) cutset then [] else c ∷ []
  | d ∷ rest ↦ c ∷ d ∷ rest
]

-- `strings.ContainsAny`
unfoldable pub contains_any : Bytes → Bytes → Bool
contains_any text set = any (λ c. any (λ b. b == c) set) text

-- Go's `<` on strings.
unfoldable pub bytes_less : Bytes → Bytes → Bool
bytes_less [] [] = false
bytes_less [] (y ∷ ys) = true
bytes_less (x ∷ xs) [] = false
bytes_less (x ∷ xs) (y ∷ ys) = ltb x y || x == y && bytes_less xs ys
