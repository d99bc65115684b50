-- ===== src/Training/Selection/Stride.antt =====
-- The step of `indexedEvaluationCandidates` of internal/training/stream.go has no common divisor
-- with the number of records.
use Prim.Native.Nat.{◌∣◌}
use native.Mathlib.Nat.{
  dvd-mul_right_of_dvd, dvd-mul_right, dvd-add_iff_right, mod-eq_of_lt, div-add-mod, mul_comm,
  mod-lt, le_of_dvd,
}
use waldo.Base.{
  ℕ, zero, suc, ◌+◌, ◌-◌, ◌*◌, ◌/◌, ◌%◌, ◌≤◌, ◌<◌, ◌≡◌, refl, sym, ap, ◌∙◌, subst, ◌≢◌, ltb→lt,
  take, drop, lt→ltb, arith, tests, ltb, leb, ◌==◌, if◌then◌else◌, Bool-cases, inl, inr,
}
use waldo.Base.Bytes.{Bytes}
use waldo.Training.Selection.{gcd_loop, greatest_common_divisor, step_loop, step_of, big_endian}

gcd_loop_step :
    (fuel left right : ℕ)
    → gcd_loop (suc fuel) left right
      ≡ (if right == 0 then left else gcd_loop fuel right (left % right))
unfolding gcd_loop
gcd_loop_step fuel left right = ground arith

-- What divides both multiples divides that of the greatest common divisor.
remainder-dvd : (n x left right : ℕ) → n ∣ left * x → n ∣ right * x → n ∣ left % right * x
remainder-dvd n x left right l r =
    (dvd-add_iff_right n (dvd-mul_right_of_dvd n r (left / right))).1
      (subst (λ (m : ℕ). n ∣ m) parts l)
  where
    parts : left * x ≡ right * x * (left / right) + left % right * x
    parts = ap (λ (m : ℕ). m * x) (sym (div-add-mod left right)) ∙ grind arith

gcd_loop-dvd :
    (n x fuel left right : ℕ)
    → right < fuel
    → n ∣ left * x
    → n ∣ right * x
    → n ∣ gcd_loop fuel left right * x
gcd_loop-dvd n x zero left right f l r = absurd (omega (arith, f))
gcd_loop-dvd n x (suc fuel) left right f l r = elim (Bool-cases (right == 0)) [
  | inl e ↦ rw (gcd_loop_step fuel left right, e) l
  | inr e ↦
      let positive : 0 < right = ground (arith, e) in
      rw (gcd_loop_step fuel left right, e)
        (gcd_loop-dvd n x fuel right (left % right) (omega (arith, f, mod-lt left positive)) r
          (remainder-dvd n x left right l r))
]

-- A number with no common divisor but 1 cancels.
pub greatest_common_divisor_cancel :
    (step n x : ℕ) → greatest_common_divisor step n ≡ 1 → n ∣ step * x → n ∣ x
unfolding greatest_common_divisor
greatest_common_divisor_cancel step n x one h =
    subst (λ (m : ℕ). n ∣ m) (ap (λ (g : ℕ). g * x) one ∙ one_times)
      (gcd_loop-dvd n x (n + 1) step n (omega arith) h (dvd-mul_right n x))
  where
    one_times : 1 * x ≡ x
    one_times = omega arith

greatest_common_divisor_one : (n : ℕ) → 1 < n → greatest_common_divisor 1 n ≡ 1
unfolding greatest_common_divisor
greatest_common_divisor_one zero h = absurd (omega (arith, h))
greatest_common_divisor_one (suc zero) h = absurd (omega (arith, h))
greatest_common_divisor_one (suc (suc n)) h =
    let first : 1 % suc (suc n) ≡ 1 = mod-eq_of_lt (omega arith) in
    let second : suc (suc n) % 1 ≡ 0 = omega arith in
    ap (λ (f : ℕ). gcd_loop f 1 (suc (suc n))) fuel
    ∙ gcd_loop_step (suc (suc n)) 1 (suc (suc n))
    ∙ unlike
    ∙ ap (gcd_loop (suc (suc n)) (suc (suc n))) first
    ∙ gcd_loop_step (suc n) (suc (suc n)) 1
    ∙ ap (gcd_loop (suc n) 1) second
    ∙ gcd_loop_step n 1 0
  where
    fuel : suc (suc n) + 1 ≡ suc (suc (suc n))
    fuel = omega arith

    unlike :
        (if suc (suc n) == 0 then 1 else gcd_loop (suc (suc n)) (suc (suc n)) (1 % suc (suc n)))
        ≡ gcd_loop (suc (suc n)) (suc (suc n)) (1 % suc (suc n))
    unlike = ground arith

step_loop_step :
    (fuel records step : ℕ)
    → step_loop (suc fuel) records step ≡ (
        if greatest_common_divisor step records == 1
        then step
        else step_loop fuel records (if leb records (step + 1) then 1 else step + 1))
unfolding step_loop
step_loop_step fuel records step = ground arith

step_loop_one : (fuel records : ℕ) → 1 < records → step_loop fuel records 1 ≡ 1
unfolding step_loop
step_loop_one zero records many = refl
step_loop_one (suc fuel) records many =
    rw (greatest_common_divisor_one records many, step_loop) refl

-- The step found has no common divisor with the number of records.
step_loop_coprime :
    (fuel records step : ℕ)
    → 1 < records
    → 0 < step
    → step < records
    → records ≤ fuel + step
    → greatest_common_divisor (step_loop fuel records step) records ≡ 1
step_loop_coprime zero records step many positive below enough =
    absurd (omega (arith, below, enough))
step_loop_coprime (suc fuel) records step many positive below enough =
    elim (Bool-cases (greatest_common_divisor step records == 1)) [
      | inl e ↦ rw (step_loop_step fuel records step, e) (ground (arith, e))
      | inr e ↦ elim (Bool-cases (leb records (step + 1))) [
        | inl last ↦
            rw (step_loop_step fuel records step, e, last, step_loop_one fuel records many)
              (greatest_common_divisor_one records many)
        | inr more ↦
            rw (step_loop_step fuel records step, e, more)
              (step_loop_coprime fuel records (step + 1) many (omega arith) (omega (tests, more))
                (omega (arith, enough)))
      ]
    ]

step_of_many :
    (records : ℕ) (digest : Bytes)
    → 1 < records
    → greatest_common_divisor (step_of records digest) records ≡ 1
unfolding step_of
step_of_many records digest many =
    let start = big_endian 0 (take 8 (drop 8 digest)) % (records - 1) in
    let below : start < records - 1 =
      mod-lt (big_endian 0 (take 8 (drop 8 digest))) (omega (arith, many)) in
    rw (lt→ltb 1 records many) (
      step_loop_coprime records records (start + 1) many (omega arith) (omega (arith, below))
        (omega arith))

step_of_single :
    (records : ℕ) (digest : Bytes)
    → records ≡ 1
    → greatest_common_divisor (step_of records digest) records ≡ 1
unfolding step_of greatest_common_divisor gcd_loop
step_of_single records digest single = rw single refl

pub step_of_coprime :
    (records : ℕ) (digest : Bytes)
    → 0 < records
    → greatest_common_divisor (step_of records digest) records ≡ 1
step_of_coprime records digest positive = elim (Bool-cases (ltb 1 records)) [
  | inl many ↦ step_of_many records digest (ltb→lt 1 records many)
  | inr single ↦ step_of_single records digest (omega (tests, positive, single))
]

-- The multiples of such a step come back to where they began only after as many steps as there are
-- records.
pub stride_fresh :
    (step n start k : ℕ)
    → greatest_common_divisor step n ≡ 1
    → start < n
    → 0 < k
    → k < n
    → (start + k * step) % n ≢ start
stride_fresh step n start k one below positive short back =
    let whole = div-add-mod (start + k * step) n in
    let multiple : n * ((start + k * step) / n) ≡ step * k =
      omega (arith, whole, back, mul_comm step k) in
    let divides : n ∣ step * k =
      subst (λ (m : ℕ). n ∣ m) multiple (dvd-mul_right n ((start + k * step) / n)) in
    absurd (
      omega
        (arith, short, le_of_dvd positive (greatest_common_divisor_cancel step n k one divides)))
