-- ===== src/Base/Text.antt =====
-- Go strings that are only compared: texts, with Go's `==`.
use Prim.Native.String.{String}
use text.Mathlib.Text.{◌==◌}
use text.Mathlib.TextEquality.{eq_iff}
use mathlib.Core.Path.{◌≡◌}
use mathlib.Core.Logic.{◌↔◌}
use mathlib.Core.Bool.{Bool, true, false, ◌||◌}
use mathlib.Core.List.{List, [], ◌∷◌}

abbrev pub text_eq : String → String → Bool
text_eq s t = s == t

pub text_eq_iff : (s t : String) → (text_eq s t ≡ true) ↔ (s ≡ t)
text_eq_iff s t = eq_iff s t

-- `value` is one of the texts.
abbrev pub one_of : List String → String → Bool
one_of [] value = false
one_of (text ∷ texts) value = text_eq value text || one_of texts value
