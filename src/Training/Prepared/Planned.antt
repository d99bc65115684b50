-- ===== src/Training/Prepared/Planned.antt =====
-- The frames that `writePreparedSequences` of internal/training/protocol.go writes for its node.
use native.Mathlib.Nat.{le-mul_of_pos_right}
use waldo.Base.{
  ℕ, ◌+◌, min, ◌≤◌, ◌<◌, ◌≡◌, refl, ap, sym, ◌∙◌, true, false, List, [], ◌∷◌, ◌++◌, append-nil,
  append_assoc, arith, leb, if◌then◌else◌, length, length-append, length-replicate, replicate,
  Bool-cases, inl, inr, All, map, some, none, Option,
}
use waldo.Base.Results.{ok, err, reject_if, bind_ok, ok_injective}
use waldo.Training.Capacity.{has_true}
use waldo.Training.Capacity.Windows.{sequences_of}
use waldo.Training.Product.{multiply_int64, multiply_int64_iff}
use waldo.Training.Prepared.{
  PreparedRecord, WorkerBegin, Plan, Window, InputFrame, PreparedError, too_few_sequences,
  bad_topology, target_overflows, resume_overflows, or_error, resume_sequences, topology_wrong,
  prepare, Writer, frames_of, emit, arrives, no_buffer, write_prepared_sequences,
}
use waldo.Training.Prepared.Windows.{windows_of, supervised, IsLevel, length-supervised}
use waldo.Training.Prepared.Stream.{settle, stream_loop-settle}
use waldo.Training.Prepared.Loop.{IsMasked, whole_stream, emit_all, emit_all_none, emit_all_step}

-- The frames of windows that are numbered from `ordinal` on, up to the target.
abbrev pub numbered_frames : Plan → ℕ → List Window → List InputFrame
numbered_frames plan ordinal [] = []
numbered_frames plan ordinal (window ∷ windows) =
    if leb plan.target ordinal
    then []
    else frames_of plan ordinal window ++ numbered_frames plan (ordinal + 1) windows

module _ (plan : Plan) where
  numbered_frames_end :
      (ordinal : ℕ) (windows : List Window)
      → plan.target ≤ ordinal
      → numbered_frames plan ordinal windows ≡ []
  numbered_frames_end ordinal [] h = refl
  numbered_frames_end ordinal (window ∷ windows) h = ground arith

  numbered_frames_open :
      (ordinal : ℕ) (window : Window) (windows : List Window)
      → ordinal < plan.target
      → numbered_frames plan ordinal (window ∷ windows)
        ≡ frames_of plan ordinal window ++ numbered_frames plan (ordinal + 1) windows
  numbered_frames_open ordinal window windows h = ground (arith, h)

  abbrev written : Window → Writer → Writer
  written window w = record {
    ordinal = w.ordinal + 1;
    frames = w.frames ++ frames_of plan w.ordinal window;
  }

  emit_blank :
      (window : Window) (w : Writer)
      → has_true window.mask ≡ false
      → emit plan window w ≡ (w, false)
  unfolding emit
  emit_blank window w h = ground arith

  emit_counts :
      (window : Window) (w : Writer)
      → has_true window.mask ≡ true
      → emit plan window w ≡ (written window w, leb plan.target (w.ordinal + 1))
  unfolding emit
  emit_counts window w h = ground arith

  -- The frames and the ordinal after the windows.
  abbrev Emitted : List Window → Writer → Writer → Type 0
  Emitted windows w last =
      (last.frames ≡ w.frames ++ numbered_frames plan w.ordinal (supervised windows))
      × (last.ordinal ≡ min plan.target (w.ordinal + length (supervised windows)))

  counted-Emitted :
      (window : Window) (windows : List Window) (w last : Writer)
      → has_true window.mask ≡ true
      → w.ordinal < plan.target
      → Emitted windows (written window w) last
      → Emitted (window ∷ windows) w last
  counted-Emitted window windows w last counts h (f, o) = rw counts (
    f
        ∙ append_assoc w.frames (frames_of plan w.ordinal window)
            (numbered_frames plan (w.ordinal + 1) (supervised windows))
        ∙ ap (λ fs. w.frames ++ fs)
            (sym (numbered_frames_open w.ordinal window (supervised windows) h)),
    omega (arith, o),
  )

  done-Emitted :
      (windows : List Window) (w : Writer) → w.ordinal ≡ plan.target → Emitted windows w w
  done-Emitted windows w h = (
    rw (numbered_frames_end w.ordinal (supervised windows) (omega (arith, h)))
        (sym (append-nil w.frames)),
    ground arith,
  )

  emit_all-Emitted :
      (windows : List Window) (w : Writer)
      → w.ordinal < plan.target
      → Emitted windows w (emit_all plan windows w).0
  emit_all-Emitted [] w h = rw (emit_all_none plan w) (sym (append-nil w.frames), ground arith)
  emit_all-Emitted (window ∷ windows) w h = elim (Bool-cases (has_true window.mask)) [
    | inr blank ↦
        rw (emit_all_step plan window windows w, emit_blank window w blank, blank)
          (emit_all-Emitted windows w h)
    | inl counts ↦
        counted-Emitted window windows w (emit_all plan (window ∷ windows) w).0 counts h
          (elim (Bool-cases (leb plan.target (w.ordinal + 1))) [
            | inl last ↦
                rw (emit_all_step plan window windows w, emit_counts window w counts, last)
                  (done-Emitted windows (written window w) (ground (arith, last, h)))
            | inr more ↦
                rw (emit_all_step plan window windows w, emit_counts window w counts, more)
                  (emit_all-Emitted windows (written window w) (ground (arith, more)))
          ])
  ]

or_error_ok :
    (e : PreparedError) (found : Option ℕ) (n : ℕ) → or_error e found ≡ ok n → found ≡ some n
unfolding or_error
or_error_ok e none n h = ground arith
or_error_ok e (some m) n h = ground (arith, h)

-- What `writePreparedSequences` has found before the first record.
pub prepare_facts :
    (begin : WorkerBegin) (plan : Plan)
    → prepare begin ≡ ok plan
    → (0 < plan.batch_size) × (plan.batch_size ≤ plan.target)
unfolding prepare
prepare_facts begin plan h =
    let (d0, e0, h0) = bind_ok (reject_if (topology_wrong begin) bad_topology) _ h in
    let (resume, e1, h1) =
      bind_ok (or_error resume_overflows (resume_sequences begin.resume_step begin.batch_size)) _
        h0 in
    let (target, e2, h2) =
      bind_ok (or_error target_overflows (multiply_int64 (begin.steps ∷ begin.batch_size ∷ []))) _
        h1 in
    let (sizes, same, small) =
      (multiply_int64_iff (begin.steps ∷ begin.batch_size ∷ []) target).0
        (or_error_ok target_overflows _ target e2) in
    let made = ok_injective h2 in
    let batch : begin.batch_size ≡ plan.batch_size = ap (λ (p : Plan). p.batch_size) made in
    let whole : target ≡ plan.target = ap (λ (p : Plan). p.target) made in
    (
      rw (← batch) sizes.1.0,
      rw (← batch, ← whole) (omega (arith, same, le-mul_of_pos_right begin.batch_size sizes.0)),
    )

module _ (plan : Plan) where
  settle-min :
      (w : Writer) (frames : List InputFrame) (n : ℕ)
      → 0 < plan.batch_size
      → plan.batch_size ≤ plan.target
      → w.frames ≡ frames
      → w.ordinal ≡ min plan.target n
      → (plan.target < n + plan.batch_size → settle plan w ≡ ok frames)
        × (n + plan.batch_size ≤ plan.target → settle plan w ≡ err (too_few_sequences n))
  settle-min w frames n b t f o = (λ h. ground (arith, h), λ h. ground (arith, h))

whole_stream-IsLevel :
    (plan : Plan) (records : List PreparedRecord)
    → All IsMasked records
    → IsLevel (whole_stream plan records)
whole_stream-IsLevel plan [] h = (refl, refl)
whole_stream-IsLevel plan (r ∷ records) h =
    let (f, g) = whole_stream-IsLevel plan records h.1 in
    (
      omega (
        arith,
        f,
        h.0,
        length-append r.loss_mask (whole_stream plan records).masks,
        length-append (r.tokens ++ plan.eos_id ∷ []) (whole_stream plan records).tokens,
        length-append r.tokens (plan.eos_id ∷ []),
      ),
      omega (
        arith,
        g,
        h.0,
        length-append (replicate (length r.loss_mask) r.corpus) (whole_stream plan records).corpora,
        length-replicate (length r.loss_mask) r.corpus,
        length-append (r.tokens ++ plan.eos_id ∷ []) (whole_stream plan records).tokens,
        length-append r.tokens (plan.eos_id ∷ []),
      ),
    )

-- Once the plan is made, and the worker asks for all records, the sequences are the supervised
-- windows of the records' whole stream, as many as the planned capacity counts in it. If they reach
-- the last batch of the target, the node gets the frames of those up to the target, else the error.
pub write_prepared_sequences_lem :
    (begin : WorkerBegin) (plan : Plan) (records : List PreparedRecord)
    → prepare begin ≡ ok plan
    → 0 < plan.width
    → All IsMasked records
    → (sequences : List Window) × (sequences
        ≡ supervised (windows_of plan.width (whole_stream plan records)))
      × (length sequences ≡ sequences_of plan.width (whole_stream plan records).masks)
      × (plan.target < length sequences + plan.batch_size
          → write_prepared_sequences begin (map arrives records)
            ≡ ok (numbered_frames plan 0 sequences))
      × (length sequences + plan.batch_size ≤ plan.target
          → write_prepared_sequences begin (map arrives records)
            ≡ err (too_few_sequences (length sequences)))
unfolding write_prepared_sequences
write_prepared_sequences_lem begin plan records h positive masked =
    let (filled, reaches) = prepare_facts begin plan h in
    let start : Writer = record { ordinal = 0; frames = [] } in
    let stream = whole_stream plan records in
    let (out, made, done) =
      stream_loop-settle plan positive filled records no_buffer start (refl, refl) (omega arith)
        (omega (arith, filled, reaches)) masked in
    let (frames, ordinal) =
      emit_all-Emitted plan (windows_of plan.width stream) start (omega (arith, filled, reaches)) in
    let (enough, few) =
      settle-min plan (emit_all plan (windows_of plan.width stream) start).0
        (numbered_frames plan 0 (supervised (windows_of plan.width stream)))
        (length (supervised (windows_of plan.width stream))) filled reaches frames
        (omega (arith, ordinal)) in
    (
      supervised (windows_of plan.width stream),
      refl,
      length-supervised plan.width positive stream (whole_stream-IsLevel plan records masked),
      λ e. rw (h, made) (done ∙ enough e),
      λ e. rw (h, made) (done ∙ few e),
    )
