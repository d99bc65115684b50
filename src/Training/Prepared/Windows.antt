-- ===== src/Training/Prepared/Windows.antt =====
-- The windows of a whole stream of tokens, masks and corpora, cut as the sequences of
-- internal/training/protocol.go are.
use waldo.Base.{
  ℕ, zero, suc, ◌+◌, ◌≤◌, ◌<◌, ◌≡◌, refl, ap, ◌∙◌, Bool, true, false, List, [], ◌∷◌, ◌++◌, arith,
  tests, ltb, leb, if◌then◌else◌, length, length-append, length-drop, take, drop, Bool-cases, inl,
  inr,
}
use waldo.Training.Capacity.{has_true}
use waldo.Training.Capacity.Windows.{sequences_of, sequences_of_full, sequences_of_tail}
use waldo.Training.Prepared.{Buffer, Window, window_of, rest_of, tail_of}

cut : ℕ → ℕ → Buffer → List Window
cut zero width b = []
cut (suc fuel) width b = elim (leb (width + 1) (length b.tokens)) [
  | true ↦ window_of width b ∷ cut fuel width (rest_of width b)
  | false ↦ if ltb 1 (length b.tokens) then tail_of b ∷ [] else []
]

-- The windows of `width + 1` tokens that overlap by one, and a last one of at least 2 tokens.
pub windows_of : ℕ → Buffer → List Window
windows_of width b = cut (suc (length b.tokens)) width b

-- The windows with a supervised target.
abbrev pub supervised : List Window → List Window
supervised [] = []
supervised (w ∷ windows) = if has_true w.mask then w ∷ supervised windows else supervised windows

-- Every token has its mask and its corpus.
abbrev pub IsLevel : Buffer → Type 0
IsLevel b = (length b.masks ≡ length b.tokens) × (length b.corpora ≡ length b.tokens)

abbrev pub append_buffer : Buffer → Buffer → Buffer
append_buffer b c = record {
  tokens = b.tokens ++ c.tokens;
  masks = b.masks ++ c.masks;
  corpora = b.corpora ++ c.corpora;
}

drop_append :
    {A : Type 0} (n : ℕ) (xs ys : List A) → n ≤ length xs → drop n (xs ++ ys) ≡ drop n xs ++ ys
drop_append zero xs ys h = refl
drop_append (suc n) [] ys h = absurd (omega arith)
drop_append (suc n) (x ∷ xs) ys h = drop_append n xs ys (omega arith)

take_append : {A : Type 0} (n : ℕ) (xs ys : List A) → n ≤ length xs → take n (xs ++ ys) ≡ take n xs
take_append zero xs ys h = refl
take_append (suc n) [] ys h = absurd (omega arith)
take_append {A = A} (suc n) (x ∷ xs) ys h =
    ap (λ (zs : List A). x ∷ zs) (take_append n xs ys (omega arith))

targets_append :
    {A : Type 0} (n : ℕ) (xs ys : List A)
    → n + 1 ≤ length xs
    → take n (drop 1 (xs ++ ys)) ≡ take n (drop 1 xs)
targets_append n [] ys h = absurd (omega arith)
targets_append n (x ∷ xs) ys h = take_append n xs ys (omega arith)

module _ (width : ℕ) (positive : 0 < width) where
  cut_fuel :
      (f g : ℕ) (b : Buffer)
      → length b.tokens < f
      → length b.tokens < g
      → cut f width b ≡ cut g width b
  unfolding cut
  cut_fuel zero g b h k = absurd (omega arith)
  cut_fuel (suc f) zero b h k = absurd (omega arith)
  cut_fuel (suc f) (suc g) b h k =
      ground (arith, cut_fuel f g (rest_of width b), length-drop width b.tokens)

  pub windows_of_full :
      (b : Buffer)
      → width + 1 ≤ length b.tokens
      → windows_of width b ≡ window_of width b ∷ windows_of width (rest_of width b)
  unfolding windows_of cut
  windows_of_full b h = ground (
    arith,
    cut_fuel (length b.tokens) (suc (length (drop width b.tokens))) (rest_of width b),
    length-drop width b.tokens,
  )

  pub windows_of_tail :
      (b : Buffer)
      → length b.tokens < width + 1
      → windows_of width b ≡ (if ltb 1 (length b.tokens) then tail_of b ∷ [] else [])
  unfolding windows_of cut
  windows_of_tail b h = ground arith

  window_of_append :
      (b c : Buffer)
      → IsLevel b
      → width + 1 ≤ length b.tokens
      → (window_of width (append_buffer b c) ≡ window_of width b)
        × (rest_of width (append_buffer b c) ≡ append_buffer (rest_of width b) c)
  window_of_append b c (m, k) h = (
    rw (
      take_append (width + 1) b.tokens c.tokens h,
      targets_append width b.masks c.masks (omega arith),
      targets_append width b.corpora c.corpora (omega arith),
    ),
    rw (
      drop_append width b.tokens c.tokens (omega arith),
      drop_append width b.masks c.masks (omega arith),
      drop_append width b.corpora c.corpora (omega arith),
    ),
  )

  -- The first full window, whatever follows the tokens at hand.
  pub windows_of_full_append :
      (b c : Buffer)
      → IsLevel b
      → width + 1 ≤ length b.tokens
      → windows_of width (append_buffer b c)
        ≡ window_of width b ∷ windows_of width (append_buffer (rest_of width b) c)
  windows_of_full_append b c level h =
      let (first, rest) = window_of_append b c level h in
      windows_of_full (append_buffer b c) (omega (arith, length-append b.tokens c.tokens))
      ∙ rw (first, rest)

  pub rest_of-IsLevel :
      (b : Buffer) → IsLevel b → width + 1 ≤ length b.tokens → IsLevel (rest_of width b)
  rest_of-IsLevel b (m, k) h = (
    omega (arith, length-drop width b.tokens, length-drop width b.masks),
    omega (arith, length-drop width b.tokens, length-drop width b.corpora),
  )

  counted :
      (fuel : ℕ) (b : Buffer)
      → IsLevel b
      → length b.tokens < fuel
      → length (supervised (windows_of width b)) ≡ sequences_of width b.masks
  counted zero b level h = absurd (omega arith)
  counted (suc fuel) b level h = elim (Bool-cases (leb (width + 1) (length b.tokens))) [
    | inl long ↦
        let fits : width + 1 ≤ length b.tokens = omega tests in
        ground (
          arith,
          windows_of_full b fits,
          sequences_of_full width positive b.masks (omega (arith, level.0)),
          counted fuel (rest_of width b) (rest_of-IsLevel b level fits)
              (omega (arith, length-drop width b.tokens)),
        )
    | inr short ↦
        let small : length b.tokens < width + 1 = omega tests in
        ground (
          arith,
          windows_of_tail b small,
          sequences_of_tail width positive b.masks (omega (arith, level.0)),
          no_targets b.masks,
          level.0,
        )
  ]
    where
      no_targets : (ms : List Bool) → length ms ≤ 1 → has_true (drop 1 ms) ≡ false
      no_targets [] h = refl
      no_targets (m ∷ []) h = refl
      no_targets (m ∷ n ∷ ms) h = absurd (omega arith)

  -- There are as many supervised windows as the planned capacity counts in the masks.
  pub length-supervised :
      (b : Buffer)
      → IsLevel b
      → length (supervised (windows_of width b)) ≡ sequences_of width b.masks
  length-supervised b level = counted (suc (length b.tokens)) b level (omega arith)
