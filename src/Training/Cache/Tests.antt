-- ===== src/Training/Cache/Tests.antt =====
-- A chunk of one sequence, and the theorem at it.
use waldo.Base.{◌≡◌, refl, true, false, [], ◌∷◌, ◌++◌, arith}
use waldo.Base.Bytes.{Bytes, codes}
use waldo.Base.Strings.{bytes_less}
use waldo.Base.Results.{ok, err}
use waldo.Training.Cache.{
  CachedSequence, prepared_chunk_magic, pack_loop, encode_prepared_sequence, has_stray_bits,
  decode_consumption, decode_sequence, decode_loop, decode_prepared_chunk, invalid_dimensions,
  bad_magic, empty_chunk, short_read, unordered_corpora,
}
use waldo.Training.Cache.RoundTrip.{encode_chunk, IsCached, decode_prepared_chunk-encode_chunk}

abbrev pub sequence : CachedSequence
sequence = record {
  ordinal = 258;
  tokens = 7 ∷ 300 ∷ 9 ∷ [];
  loss_mask = false ∷ true ∷ [];
  consumption = (codes "a", 1) ∷ (codes "ab", 0) ∷ [];
}

abbrev pub encoded : Bytes
encoded =
    (2 ∷ 1 ∷ 0 ∷ 0 ∷ 0 ∷ 0 ∷ 0 ∷ 0 ∷ [])
    ++ ((3 ∷ 0 ∷ 0 ∷ 0 ∷ 2 ∷ 0 ∷ 0 ∷ 0 ∷ [])
        ++ ((7 ∷ 0 ∷ 0 ∷ 0 ∷ 44 ∷ 1 ∷ 0 ∷ 0 ∷ 9 ∷ 0 ∷ 0 ∷ 0 ∷ 2 ∷ [])
            ++ ((1 ∷ 0 ∷ b'a' ∷ 1 ∷ 0 ∷ 0 ∷ 0 ∷ 0 ∷ 0 ∷ 0 ∷ 0 ∷ [])
                ++ (2 ∷ 0 ∷ b'a' ∷ b'b' ∷ 0 ∷ 0 ∷ 0 ∷ 0 ∷ 0 ∷ 0 ∷ 0 ∷ 0 ∷ []))))

pub written_bytes : encode_prepared_sequence sequence ≡ ok encoded
unfolding encode_prepared_sequence
written_bytes = refl

read_again : decode_sequence (encoded ++ 5 ∷ []) ≡ ok (sequence, 5 ∷ [])
unfolding decode_sequence
read_again = refl

one_token :
    encode_prepared_sequence (record sequence { tokens = 1 ∷ []; loss_mask = [] })
    ≡ err invalid_dimensions
unfolding encode_prepared_sequence
one_token = refl

other_file : decode_prepared_chunk (codes "OWPS2000") ≡ err bad_magic
unfolding decode_prepared_chunk
other_file = refl

nothing_in_it : decode_prepared_chunk prepared_chunk_magic ≡ err empty_chunk
unfolding decode_prepared_chunk
nothing_in_it = refl

cut_off : decode_loop 9 (1 ∷ 2 ∷ []) ≡ err short_read
unfolding decode_loop
cut_off = refl

stray : has_stray_bits 2 (4 ∷ []) ≡ true
unfolding has_stray_bits
stray = refl

nine_values :
    pack_loop 9 (true ∷ false ∷ false ∷ false ∷ false ∷ false ∷ false ∷ true ∷ true ∷ [])
    ≡ 129 ∷ 1 ∷ []
unfolding pack_loop
nine_values = refl

same_corpus : decode_consumption 1 (codes "a") 0 (1 ∷ 0 ∷ b'a' ∷ []) ≡ err unordered_corpora
unfolding decode_consumption
same_corpus = refl

pub sequence-IsCached : IsCached sequence
unfolding bytes_less
sequence-IsCached = record {
  small = omega arith;
  some_tokens = omega arith;
  fits = omega arith;
  words = (omega arith, (omega arith, (omega arith, tt)));
  masked = refl;
  few = omega arith;
  ordered = (refl, omega arith, (refl, omega arith, tt));
  counted = refl;
}

decode_prepared_chunk-encode_chunk_example :
    (bytes : Bytes) × (encode_chunk (sequence ∷ sequence ∷ []) ≡ ok bytes)
    × (decode_prepared_chunk bytes
        ≡ ok (record { sequences = sequence ∷ sequence ∷ []; first = 258; last = 258 }))
decode_prepared_chunk-encode_chunk_example =
    decode_prepared_chunk-encode_chunk sequence (sequence ∷ [])
      (sequence-IsCached, (sequence-IsCached, tt))
