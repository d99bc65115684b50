-- ===== src/Training/Cache/Masks.antt =====
-- The masks that internal/training/prepared_cache.go packs into bytes are unpacked from them.
use waldo.Base.{
  ℕ, zero, suc, ◌+◌, ◌-◌, ◌*◌, ◌/◌, ◌%◌, ◌^◌, ◌≤◌, ◌<◌, ◌≡◌, refl, ap, ◌∙◌, subst, Bool, true,
  false, List, [], ◌∷◌, ◌++◌, length, length-take, length-drop, take, drop, take-append-drop, min,
  arith, leb, ◌==◌, Bool-cases, inl, inr,
}
use native.Mathlib.Nat.{div-eq_of_lt}
use waldo.Base.Bytes.{Bytes}
use waldo.Training.Cache.{byte_of, pack_loop, bits_of, unpack_mask, last_byte, has_stray_bits}

bits_of-byte_of : (bits : List Bool) → bits_of (length bits) (byte_of bits) ≡ bits
unfolding bits_of byte_of
bits_of-byte_of [] = refl
bits_of-byte_of (true ∷ bits) =
    let low : (1 + 2 * byte_of bits) % 2 ≡ 1 = omega arith in
    let high : (1 + 2 * byte_of bits) / 2 ≡ byte_of bits = omega arith in
    rw (low, high, bits_of-byte_of bits) refl
bits_of-byte_of (false ∷ bits) =
    let low : (0 + 2 * byte_of bits) % 2 ≡ 0 = omega arith in
    let high : (0 + 2 * byte_of bits) / 2 ≡ byte_of bits = omega arith in
    rw (low, high, bits_of-byte_of bits) refl

pack_loop_step :
    (fuel : ℕ) (mask : List Bool)
    → 0 < length mask
    → pack_loop (suc fuel) mask ≡ byte_of (take 8 mask) ∷ pack_loop fuel (drop 8 mask)
unfolding pack_loop
pack_loop_step fuel [] h = absurd (omega (arith, h))
pack_loop_step fuel (b ∷ mask) h = refl

unpack_mask_step :
    (size byte : ℕ) (packed : Bytes)
    → unpack_mask size (byte ∷ packed) ≡ bits_of (min 8 size) byte ++ unpack_mask (size - 8) packed
unfolding unpack_mask
unpack_mask_step size byte packed = refl

pub unpack_mask-pack_loop :
    (fuel : ℕ) (mask : List Bool)
    → length mask ≤ fuel
    → unpack_mask (length mask) (pack_loop fuel mask) ≡ mask
unpack_mask-pack_loop zero [] h = unfold unpack_mask pack_loop in refl
unpack_mask-pack_loop zero (b ∷ mask) h = absurd (omega (arith, h))
unpack_mask-pack_loop (suc fuel) mask h = elim (Bool-cases (0 == length mask)) [
  | inl e ↦ empty mask (ground (arith, e))
  | inr e ↦
      let first : min 8 (length mask) ≡ length (take 8 mask) = omega (arith, length-take 8 mask) in
      let rest : length mask - 8 ≡ length (drop 8 mask) = omega (arith, length-drop 8 mask) in
      rw (pack_loop_step fuel mask (ground (arith, e))) (
        unpack_mask_step (length mask) (byte_of (take 8 mask)) (pack_loop fuel (drop 8 mask))
        ∙ ap
            (λ (n : ℕ).
              bits_of n (byte_of (take 8 mask))
              ++ unpack_mask (length mask - 8) (pack_loop fuel (drop 8 mask)))
            first
        ∙ ap
            (λ (n : ℕ).
              bits_of (length (take 8 mask)) (byte_of (take 8 mask))
              ++ unpack_mask n (pack_loop fuel (drop 8 mask)))
            rest
        ∙ ap (λ bits. bits ++ unpack_mask (length (drop 8 mask)) (pack_loop fuel (drop 8 mask)))
            (bits_of-byte_of (take 8 mask))
        ∙ ap (λ bits. take 8 mask ++ bits)
            (unpack_mask-pack_loop fuel (drop 8 mask) (ground (arith, rest, h, e)))
        ∙ take-append-drop 8 mask)
]
  where
    empty :
        (bits : List Bool)
        → length bits ≡ 0
        → unpack_mask (length bits) (pack_loop (suc fuel) bits) ≡ bits
    empty [] none_left = unfold unpack_mask pack_loop in refl
    empty (b ∷ bits) none_left = absurd (omega (arith, none_left))

pub length-pack_loop :
    (fuel : ℕ) (mask : List Bool)
    → length mask ≤ fuel
    → length (pack_loop fuel mask) ≡ (length mask + 7) / 8
unfolding pack_loop
length-pack_loop zero [] h = refl
length-pack_loop zero (b ∷ mask) h = absurd (omega (arith, h))
length-pack_loop (suc fuel) [] h = refl
length-pack_loop (suc fuel) (b ∷ mask) h =
    let whole : List Bool = b ∷ mask in
    let rest : length (drop 8 whole) ≡ length whole - 8 = length-drop 8 whole in
    omega (arith, length-pack_loop fuel (drop 8 whole) (omega (arith, rest, h)), rest)

pow_double : (n : ℕ) → 2 ^ suc n ≡ 2 * 2 ^ n
pow_double n = grind arith

byte_of-lt : (bits : List Bool) (n : ℕ) → length bits ≡ n → byte_of bits < 2 ^ n
unfolding byte_of
byte_of-lt [] zero h = omega arith
byte_of-lt [] (suc n) h = absurd (omega (arith, h))
byte_of-lt (b ∷ bits) zero h = absurd (omega (arith, h))
byte_of-lt (b ∷ bits) (suc n) h =
    let double : 2 ^ suc n ≡ 2 * 2 ^ n = pow_double n in
    ground (arith, double, byte_of-lt bits n (omega (arith, h)))

last_byte-cons :
    (byte : ℕ) (packed : Bytes) → 0 < length packed → last_byte (byte ∷ packed) ≡ last_byte packed
last_byte-cons byte [] h = absurd (omega (arith, h))
last_byte-cons byte (next ∷ packed) h = refl

pack_loop_none : (fuel : ℕ) (mask : List Bool) → length mask ≡ 0 → pack_loop fuel mask ≡ []
unfolding pack_loop
pack_loop_none zero mask h = refl
pack_loop_none (suc fuel) [] h = refl
pack_loop_none (suc fuel) (b ∷ mask) h = absurd (omega (arith, h))

last_byte-pack_loop :
    (fuel : ℕ) (mask : List Bool)
    → length mask ≤ fuel
    → 0 < length mask % 8
    → last_byte (pack_loop fuel mask) < 2 ^ (length mask % 8)
last_byte-pack_loop zero mask h r = absurd (omega (arith, h, r))
last_byte-pack_loop (suc fuel) mask h r =
    let behind = length-drop 8 mask in
    elim (Bool-cases (leb 9 (length mask))) [
      | inl more ↦
          let size : length (drop 8 mask) % 8 ≡ length mask % 8 = ground (arith, behind, more) in
          let fits : length (drop 8 mask) ≤ fuel = ground (arith, behind, more, h) in
          let packed : 0 < length (pack_loop fuel (drop 8 mask)) =
            ground (arith, length-pack_loop fuel (drop 8 mask) fits, behind, more) in
          let rest = last_byte-pack_loop fuel (drop 8 mask) fits (omega (arith, size, r)) in
          rw
            (
              pack_loop_step fuel mask (omega (arith, r)),
              last_byte-cons (byte_of (take 8 mask)) (pack_loop fuel (drop 8 mask)) packed,
            )
            (subst (λ (n : ℕ). last_byte (pack_loop fuel (drop 8 mask)) < 2 ^ n) size rest)
      | inr last ↦
          let whole : length (take 8 mask) ≡ length mask % 8 =
            ground (arith, length-take 8 mask, last, r) in
          rw
            (
              pack_loop_step fuel mask (omega (arith, r)),
              pack_loop_none fuel (drop 8 mask) (ground (arith, behind, last, r)),
            )
            (byte_of-lt (take 8 mask) (length mask % 8) whole)
    ]

pub has_stray_bits-pack_loop :
    (fuel : ℕ) (mask : List Bool)
    → length mask ≤ fuel
    → has_stray_bits (length mask) (pack_loop fuel mask) ≡ false
unfolding has_stray_bits
has_stray_bits-pack_loop fuel mask h = elim (Bool-cases (length mask % 8 == 0)) [
  | inl e ↦ rw e refl
  | inr e ↦
      let small = last_byte-pack_loop fuel mask h (ground (arith, e)) in
      let none_left : last_byte (pack_loop fuel mask) / 2 ^ (length mask % 8) ≡ 0 =
        div-eq_of_lt small in
      rw (e, none_left) refl
]
