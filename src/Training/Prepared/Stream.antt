-- ===== src/Training/Prepared/Stream.antt =====
-- The sequences that `writePreparedSequences` of internal/training/protocol.go cuts out of the
-- records are those of their whole stream.
use waldo.Base.{
  ◌+◌, ◌-◌, ◌≤◌, ◌<◌, ◌≡◌, refl, ap, sym, ◌∙◌, Bool, true, false, List, [], ◌∷◌, ◌++◌, append-nil,
  append_assoc, arith, ltb, leb, if◌then◌else◌, length, length-append, length-replicate, replicate,
  Bool-cases, inl, inr, All, map,
}
use waldo.Base.Results.{Result, ok, err}
use waldo.Training.Prepared.{
  PreparedRecord, Plan, Buffer, Window, tail_of, InputFrame, PreparedError, too_few_sequences,
  Writer, emit, window_loop, append_record, Arrival, arrives, stream_loop, finish,
}
use waldo.Training.Prepared.Windows.{windows_of, windows_of_tail, IsLevel, append_buffer}
use waldo.Training.Prepared.Loop.{IsMasked, whole_stream, emit_all, IsCut, window_loop-IsCut}

-- What is made of the last state.
abbrev pub settle : Plan → Writer → Result PreparedError (List InputFrame)
settle plan w =
    if leb plan.target w.ordinal
    then ok w.frames
    else if ltb w.ordinal (plan.target - plan.batch_size + 1)
    then err (too_few_sequences w.ordinal)
    else ok w.frames

module _ (plan : Plan) (positive : 0 < plan.width) (filled : 0 < plan.batch_size) where
  emit_all_one :
      (window : Window) (w : Writer) → (emit_all plan (window ∷ []) w).0 ≡ (emit plan window w).0
  unfolding emit_all
  emit_all_one window w = ground arith

  finish_last :
      (b : Buffer) (w last : Writer)
      → w.ordinal < plan.target
      → (if ltb 1 (length b.tokens) then (emit plan (tail_of b) w).0 else w) ≡ last
      → finish plan ((b, w), false) ≡ settle plan last
  unfolding finish
  finish_last b w last k e = rw e (ground (arith, k, filled))

  finish_tail :
      (b : Buffer) (w : Writer)
      → length b.tokens < plan.width + 1
      → w.ordinal < plan.target
      → finish plan ((b, w), false) ≡ settle plan (emit_all plan (windows_of plan.width b) w).0
  unfolding emit_all
  finish_tail b w h k =
      finish_last b w (emit_all plan (windows_of plan.width b) w).0 k
        (rw (windows_of_tail plan.width positive b h) (last_one (ltb 1 (length b.tokens))))
    where
      last_one :
          (two : Bool)
          → (if two then (emit plan (tail_of b) w).0 else w)
            ≡ (emit_all plan (if two then tail_of b ∷ [] else []) w).0
      last_one true = sym (emit_all_one (tail_of b) w)
      last_one false = refl

  finish_reached :
      (out : (Buffer × Writer) × Bool)
      → out.1 ≡ true
      → plan.target ≤ out.0.1.ordinal
      → finish plan out ≡ settle plan out.0.1
  unfolding finish
  finish_reached out e h = ground arith

  append_record-IsLevel :
      (b : Buffer) (r : PreparedRecord) → IsLevel b → IsMasked r → IsLevel (append_record plan b r)
  append_record-IsLevel b r (f, g) m = (
    omega (
      arith,
      length-append b.masks r.loss_mask,
      length-append b.tokens (r.tokens ++ plan.eos_id ∷ []),
      length-append r.tokens (plan.eos_id ∷ []),
    ),
    omega (
      arith,
      length-append b.corpora (replicate (length r.loss_mask) r.corpus),
      length-replicate (length r.loss_mask) r.corpus,
      length-append b.tokens (r.tokens ++ plan.eos_id ∷ []),
      length-append r.tokens (plan.eos_id ∷ []),
    ),
  )

  stream_loop_step :
      (r : PreparedRecord) (arrivals : List Arrival) (b : Buffer) (w : Writer)
      (out : (Buffer × Writer) × Bool)
      → IsMasked r
      → window_loop (length (append_record plan b r).tokens) plan (append_record plan b r) w ≡ out
      → stream_loop plan (arrives r ∷ arrivals) b w
        ≡ (if out.1 then ok out else stream_loop plan arrivals out.0.0 out.0.1)
  unfolding stream_loop
  stream_loop_step r arrivals b w out m e = ground (arith, m, e)

  pub stream_loop-settle :
      (records : List PreparedRecord) (b : Buffer) (w : Writer)
      → IsLevel b
      → length b.tokens < plan.width + 1
      → w.ordinal < plan.target
      → All IsMasked records
      → (out : (Buffer × Writer) × Bool) × (stream_loop plan (map arrives records) b w ≡ ok out)
        × (finish plan out
            ≡ settle plan
                (emit_all plan
                  (windows_of plan.width (append_buffer b (whole_stream plan records)))
                  w).0)
  stream_loop-settle [] b w level h k m = (
    ((b, w), false),
    unfold stream_loop in refl,
    finish_tail b w h k ∙ rw (append-nil b.tokens, append-nil b.masks, append-nil b.corpora) refl,
  )
  stream_loop-settle (r ∷ records) b w level h k m =
      let buffer = append_record plan b r in
      let run = window_loop (length buffer.tokens) plan buffer w in
      let cut : IsCut plan buffer (whole_stream plan records) w run =
        window_loop-IsCut plan positive (length buffer.tokens) buffer (whole_stream plan records) w
          (append_record-IsLevel b r level m.0) (omega arith) k in
      let together : append_buffer b (whole_stream plan (r ∷ records))
          ≡ append_buffer buffer (whole_stream plan records) =
        sym (
          rw
            (
              append_assoc b.tokens (r.tokens ++ plan.eos_id ∷ []) _,
              append_assoc b.masks r.loss_mask _,
              append_assoc b.corpora (replicate (length r.loss_mask) r.corpus) _,
            )
            refl) in
      let whole = ap (λ c. emit_all plan (windows_of plan.width c) w) (sym together) in
      elim (Bool-cases run.1) [
        | inl e ↦ (
          run,
          stream_loop_step r _ b w run m.0 refl ∙ rw e refl,
          finish_reached run e (cut.reached e).1
              ∙ ap (λ p. settle plan p.0) (sym (cut.reached e).0 ∙ whole),
        )
        | inr e ↦
            let (out, made, done) =
              stream_loop-settle records run.0.0 run.0.1 (cut.open_yet e).1 (cut.open_yet e).2
                (cut.open_yet e).3 m.1 in
            (
              out,
              stream_loop_step r _ b w run m.0 refl ∙ rw e made,
              done ∙ ap (λ p. settle plan p.0) (sym (cut.open_yet e).0 ∙ whole),
            )
      ]
