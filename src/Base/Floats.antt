-- ===== src/Base/Floats.antt =====
-- The float64 of Go, as a parameter: its order, its special values and its literals.
use Prim.Native.Nat.{ℕ, zero, suc, ◌*◌, ◌-◌}
use waldo.Base.Tests.{ltb, ◌==◌}
use mathlib.Core.Bool.{Bool, false, ◌||◌}

-- `less` and `equal` are `<` and `==`, `literal m e` is m * 10 ^ -e.
pub record Floats (F : Type 0) : Type 0 where
  pub less : F → F → Bool
  pub equal : F → F → Bool
  pub is_nan : F → Bool
  pub is_inf : F → Bool
  pub literal : ℕ → ℕ → F

module _ {F : Type 0} (float : Floats F) where
  abbrev pub float_zero : F
  float_zero = float.literal 0 0

  abbrev pub float_one : F
  float_one = float.literal 1 0

  -- `math.IsNaN(value) || math.IsInf(value, 0)`
  abbrev pub not_finite : F → Bool
  not_finite value = float.is_nan value || float.is_inf value

unfoldable pub tens : ℕ → ℕ
tens zero = 1
tens (suc n) = 10 * tens n

-- Numbers from 0 up in units of 10 ^ -9: floats to run the code with.
unfoldable pub nano_floats : Floats ℕ
unfolding tens
nano_floats = record {
  less = ltb;
  equal = λ a b. a == b;
  is_nan = λ _. false;
  is_inf = λ _. false;
  literal = λ m e. m * tens (9 - e);
}
