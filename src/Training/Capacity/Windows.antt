-- ===== src/Training/Capacity/Windows.antt =====
-- The reference count: how many sequences a stream of loss masks is packed into, cut into windows of
-- `sequence_length + 1` that overlap by one, where a window with no supervised target is none.
use waldo.Base.{
  ℕ, zero, suc, ◌+◌, ◌-◌, ◌*◌, ◌≤◌, ◌<◌, ◌≡◌, refl, ap, ◌∙◌, inl, inr, Bool, true, false, ◌||◌,
  List, [], ◌∷◌, ◌++◌, arith, tests, leb, if◌then◌else◌, length, length-append, length-drop,
  length-replicate, take, drop, replicate, Bool-cases,
}
use waldo.Training.Capacity.{has_true}

abbrev pub one_if : Bool → ℕ
one_if b = if b then 1 else 0

windows : ℕ → ℕ → List Bool → ℕ
windows zero width ms = 0
windows (suc fuel) width ms = elim (leb (width + 1) (length ms)) [
  | true ↦ one_if (has_true (take width (drop 1 ms))) + windows fuel width (drop width ms)
  | false ↦ one_if (has_true (drop 1 ms))
]

pub sequences_of : ℕ → List Bool → ℕ
sequences_of width ms = windows (suc (length ms)) width ms

module _ (width : ℕ) (positive : 0 < width) where
  windows_fuel :
      (f g : ℕ) (ms : List Bool)
      → length ms < f
      → length ms < g
      → windows f width ms ≡ windows g width ms
  unfolding windows
  windows_fuel zero g ms h k = absurd (omega arith)
  windows_fuel (suc f) zero ms h k = absurd (omega arith)
  windows_fuel (suc f) (suc g) ms h k =
      ground (arith, windows_fuel f g (drop width ms), length-drop width ms)

  pub sequences_of_full :
      (ms : List Bool)
      → width + 1 ≤ length ms
      → sequences_of width ms
        ≡ one_if (has_true (take width (drop 1 ms))) + sequences_of width (drop width ms)
  unfolding sequences_of windows
  sequences_of_full ms h = ground (
    arith,
    windows_fuel (length ms) (suc (length (drop width ms))) (drop width ms),
    length-drop width ms,
  )

  pub sequences_of_tail :
      (ms : List Bool)
      → length ms < width + 1
      → sequences_of width ms ≡ one_if (has_true (drop 1 ms))
  unfolding sequences_of windows
  sequences_of_tail ms h = ground arith

pub has_true_append : (xs ys : List Bool) → has_true (xs ++ ys) ≡ (has_true xs || has_true ys)
has_true_append [] ys = refl
has_true_append (true ∷ xs) ys = refl
has_true_append (false ∷ xs) ys = has_true_append xs ys

pub drop_append : (n : ℕ) (xs ys : List Bool) → n ≤ length xs → drop n (xs ++ ys) ≡ drop n xs ++ ys
drop_append zero xs ys h = refl
drop_append (suc n) [] ys h = absurd (omega arith)
drop_append (suc n) (x ∷ xs) ys h = drop_append n xs ys (omega arith)

pub take_append : (n : ℕ) (xs ys : List Bool) → n ≤ length xs → take n (xs ++ ys) ≡ take n xs
take_append zero xs ys h = refl
take_append (suc n) [] ys h = absurd (omega arith)
take_append (suc n) (x ∷ xs) ys h =
    ap (λ (zs : List Bool). x ∷ zs) (take_append n xs ys (omega arith))

pub take-replicate : (n k : ℕ) → n ≤ k → take n (replicate k true) ≡ replicate n true
take-replicate zero k h = refl
take-replicate (suc n) zero h = absurd (omega arith)
take-replicate (suc n) (suc k) h =
    ap (λ (zs : List Bool). true ∷ zs) (take-replicate n k (omega arith))

pub replicate_eq : {m n : ℕ} → m ≡ n → replicate m true ≡ replicate n true
replicate_eq e = rw e

pub drop-replicate : (n k : ℕ) → drop n (replicate k true) ≡ replicate (k - n) true
drop-replicate zero k = replicate_eq (omega arith)
drop-replicate (suc n) zero = replicate_eq {m = 0} (omega arith)
drop-replicate (suc n) (suc k) = drop-replicate n k ∙ replicate_eq (omega arith)

pub has_true-replicate : (n : ℕ) → 0 < n → has_true (replicate n true) ≡ true
has_true-replicate zero h = absurd (omega arith)
has_true-replicate (suc n) h = refl

pub take_append_more :
    (n : ℕ) (xs ys : List Bool) → length xs ≤ n → take n (xs ++ ys) ≡ xs ++ take (n - length xs) ys
take_append_more n [] ys h = let e : n ≡ n - 0 = omega arith in rw (← e)
take_append_more zero (x ∷ xs) ys h = absurd (omega arith)
take_append_more (suc n) (x ∷ xs) ys h =
    let e : suc n - suc (length xs) ≡ n - length xs = omega arith in
    rw e (ap (λ (zs : List Bool). x ∷ zs) (take_append_more n xs ys (omega arith)))

module _ (width : ℕ) (positive : 0 < width) where
  window_eq :
      (ms rest : List Bool)
      → width + 1 ≤ length ms
      → take width (drop 1 (ms ++ rest)) ≡ take width (drop 1 ms)
  window_eq [] rest h = absurd (omega arith)
  window_eq (x ∷ ms) rest h = take_append width ms rest (omega arith)

  -- The first full window, whatever follows the masks at hand.
  pub sequences_of_full_append :
      (ms rest : List Bool)
      → width + 1 ≤ length ms
      → sequences_of width (ms ++ rest)
        ≡ one_if (has_true (take width (drop 1 ms))) + sequences_of width (drop width ms ++ rest)
  sequences_of_full_append ms rest h =
      sequences_of_full width positive (ms ++ rest) (omega (arith, length-append ms rest))
      ∙ rw (window_eq ms rest h, drop_append width ms rest (omega arith))

  full_replicate :
      (n : ℕ) (rest : List Bool)
      → width + 1 ≤ n
      → sequences_of width (replicate n true ++ rest)
        ≡ 1 + sequences_of width (replicate (n - width) true ++ rest)
  full_replicate n rest h =
      sequences_of_full_append (replicate n true) rest (omega (arith, length-replicate n true))
      ∙ rw (
        drop-replicate 1 n,
        take-replicate width (n - 1) (omega arith),
        has_true-replicate width positive,
        drop-replicate width n,
      )

  -- A stream with every target supervised gives a sequence for each full window.
  pub sequences_of-replicate :
      (k n : ℕ) (rest : List Bool)
      → k * width + 1 ≤ n
      → sequences_of width (replicate n true ++ rest)
        ≡ k + sequences_of width (replicate (n - k * width) true ++ rest)
  sequences_of-replicate zero n rest h =
      let e : n - 0 * width ≡ n = omega arith in rw e (omega arith)
  sequences_of-replicate (suc k) n rest h = omega (
    arith,
    full_replicate n rest (omega arith),
    sequences_of-replicate k (n - width) rest (omega arith),
    ap (λ (zs : List Bool). sequences_of width (zs ++ rest))
        (replicate_eq {m = n - width - k * width} {n = n - suc k * width} (omega arith)),
  )

  tail_le :
      (ms rest : List Bool)
      → length ms < width + 1
      → sequences_of width ms ≤ sequences_of width (ms ++ rest)
  tail_le [] rest h = omega (arith, sequences_of_tail width positive [] h)
  tail_le (x ∷ ms) rest h = ground (
    arith,
    sequences_of_tail width positive (x ∷ ms),
    sequences_of_tail width positive (x ∷ (ms ++ rest)),
    sequences_of_full width positive (x ∷ (ms ++ rest)),
    has_true_append ms rest,
    take_append_more width ms rest (omega arith),
    has_true_append ms (take (width - length ms) rest),
  )

  append_le :
      (fuel : ℕ) (ms rest : List Bool)
      → length ms < fuel
      → sequences_of width ms ≤ sequences_of width (ms ++ rest)
  append_le zero ms rest h = absurd (omega arith)
  append_le (suc fuel) ms rest h = elim (Bool-cases (leb (width + 1) (length ms))) [
    | inr short ↦ tail_le ms rest (omega tests)
    | inl long ↦
        let fits : width + 1 ≤ length ms = omega tests in
        omega (
          arith,
          sequences_of_full width positive ms fits,
          sequences_of_full width positive (ms ++ rest) (omega (arith, length-append ms rest)),
          append_le fuel (drop width ms) rest (omega (arith, length-drop width ms)),
          ap (sequences_of width) (drop_append width ms rest (omega arith)),
          ap (λ (zs : List Bool). one_if (has_true zs)) (window_eq ms rest fits),
        )
  ]

  -- More masks never give fewer sequences.
  pub sequences_of-append_le :
      (ms rest : List Bool) → sequences_of width ms ≤ sequences_of width (ms ++ rest)
  sequences_of-append_le ms rest = append_le (suc (length ms)) ms rest (omega arith)
