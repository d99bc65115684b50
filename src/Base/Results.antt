-- ===== src/Base/Results.antt =====
-- A call of Go that returns a value and an `error`: `ok` is a nil error.
use mathlib.Core.Path.{◌≡◌, refl, subst}
use mathlib.Core.Bool.{Bool, true, false}
use waldo.Base.Tests.{if◌then◌else◌}

pub data Result {ℓ} (E A : Type ℓ) : Type ℓ where
  err : E → Result E A
  ok : A → Result E A

infixl 5 ◌>>=◌ ◌>>◌
-- `if err != nil { return err }` behind a call.
abbrev pub ◌>>=◌ {ℓ} : {E A B : Type ℓ} → Result E A → (A → Result E B) → Result E B
err problem >>= next = err problem
ok value >>= next = next value

abbrev pub ◌>>◌ {ℓ} : {E B : Type ℓ} → Result E (Unit {ℓ}) → Result E B → Result E B
first >> next = first >>= λ done. next

-- `if bad { return error }`
abbrev pub reject_if {ℓ} : {E : Type ℓ} → Bool → E → Result E (Unit {ℓ})
reject_if true problem = err problem
reject_if false problem = ok tt

-- What comes behind a call was reached, if the whole returns.
pub bind_ok {ℓ} :
    {E A B : Type ℓ} {returned : B} (call : Result E A) (next : A → Result E B)
    → (call >>= next) ≡ ok returned
    → (value : A) × (call ≡ ok value) × (next value ≡ ok returned)
bind_ok (err problem) next h = cc
bind_ok (ok value) next h = (value, refl, h)

pub ok_injective {ℓ} : {E A : Type ℓ} {a b : A} → ◌≡◌ {A = Result E A} (ok a) (ok b) → a ≡ b
ok_injective h = cc

-- The branch of a test that was taken.
module _ {ℓ} {E A : Type ℓ} (b : Bool) (x y : Result E A) {returned : A}
    (h : (if b then x else y) ≡ ok returned) where
  pub then_ok : b ≡ true → x ≡ ok returned
  then_ok e = subst (λ (c : Bool). (if c then x else y) ≡ ok returned) e h

  pub else_ok : b ≡ false → y ≡ ok returned
  else_ok e = subst (λ (c : Bool). (if c then x else y) ≡ ok returned) e h
