-- ===== src/Training/Cache/Words.antt =====
-- The numbers and bytes that internal/training/prepared_cache.go writes are read back.
use waldo.Base.{
  ℕ, zero, suc, ◌*◌, ◌/◌, ◌<◌, ◌≡◌, refl, ap, false, [], ◌∷◌, ◌++◌, length, length-append, take,
  drop, ltb, arith,
}
use waldo.Base.Bytes.{Bytes, little_endian}
use waldo.Base.Results.{ok}
use waldo.Training.Cache.{put_little_endian, read_bytes, read_uint}

-- The numbers of so many bytes are below this.
abbrev pub bound : ℕ → ℕ
bound zero = 1
bound (suc size) = 256 * bound size

pub length-put_little_endian : (size n : ℕ) → length (put_little_endian size n) ≡ size
unfolding put_little_endian
length-put_little_endian zero n = refl
length-put_little_endian (suc size) n = ap suc (length-put_little_endian size (n / 256))

little_endian-put_little_endian :
    (size n : ℕ) → n < bound size → little_endian (put_little_endian size n) ≡ n
unfolding put_little_endian little_endian
little_endian-put_little_endian zero n h = omega (arith, h)
little_endian-put_little_endian (suc size) n h =
    omega (arith, little_endian-put_little_endian size (n / 256) (omega (arith, h)))

take-append : (xs ys : Bytes) → take (length xs) (xs ++ ys) ≡ xs
take-append [] ys = refl
take-append (x ∷ xs) ys = ap (λ zs. x ∷ zs) (take-append xs ys)

drop-append : (xs ys : Bytes) → drop (length xs) (xs ++ ys) ≡ ys
drop-append [] ys = refl
drop-append (x ∷ xs) ys = drop-append xs ys

pub read_bytes-append :
    (size : ℕ) (xs rest : Bytes) → length xs ≡ size → read_bytes size (xs ++ rest) ≡ ok (xs, rest)
unfolding read_bytes
read_bytes-append size xs rest h =
    let long : ltb (length (xs ++ rest)) (length xs) ≡ false =
      ground (arith, length-append xs rest) in
    rw (← h, long, take-append xs rest, drop-append xs rest) refl

pub read_uint-put_little_endian :
    (size n : ℕ) (rest : Bytes)
    → n < bound size
    → read_uint size (put_little_endian size n ++ rest) ≡ ok (n, rest)
unfolding read_uint
read_uint-put_little_endian size n rest h =
    rw
      (
        read_bytes-append size (put_little_endian size n) rest (length-put_little_endian size n),
        little_endian-put_little_endian size n h,
      )
      refl
