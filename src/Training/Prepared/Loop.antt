-- ===== src/Training/Prepared/Loop.antt =====
-- The loop over the windows in `writePreparedSequences` of internal/training/protocol.go does what
-- the windows of the whole stream ask for.
use waldo.Base.{
  ℕ, zero, suc, ◌+◌, ◌≤◌, ◌<◌, ◌≡◌, refl, ap, ◌∙◌, Bool, true, false, List, [], ◌∷◌, ◌++◌, arith,
  tests, leb, if◌then◌else◌, length, length-drop, replicate, Bool-cases, inl, inr,
}
use waldo.Training.Prepared.{
  PreparedRecord, Plan, Buffer, Window, window_of, rest_of, Writer, emit, window_loop,
}
use waldo.Training.Prepared.Windows.{
  windows_of, windows_of_full_append, rest_of-IsLevel, IsLevel, append_buffer,
}

-- The mask of the record has a value for each token and for the EOS.
abbrev pub IsMasked : PreparedRecord → Type 0
IsMasked r = length r.loss_mask ≡ length r.tokens + 1

-- The tokens, masks and corpora of all records, an EOS behind each of them.
abbrev pub whole_stream : Plan → List PreparedRecord → Buffer
whole_stream plan [] = record { tokens = []; masks = []; corpora = [] }
whole_stream plan (r ∷ records) =
    append_buffer
      (record {
        tokens = r.tokens ++ plan.eos_id ∷ [];
        masks = r.loss_mask;
        corpora = replicate (length r.loss_mask) r.corpus;
      })
      (whole_stream plan records)

-- `emitSequence` for one window after the other, until the target is reached.
unfoldable pub emit_all : Plan → List Window → Writer → Writer × Bool
emit_all plan [] w = (w, false)
emit_all plan (window ∷ windows) w = elim (emit plan window w).1 [
  | true ↦ ((emit plan window w).0, true)
  | false ↦ emit_all plan windows (emit plan window w).0
]

module _ (plan : Plan) where
  pub emit_all_none : (w : Writer) → emit_all plan [] w ≡ (w, false)
  unfolding emit_all
  emit_all_none w = refl

  pub emit_all_step :
      (window : Window) (windows : List Window) (w : Writer)
      → emit_all plan (window ∷ windows) w ≡ (
          if (emit plan window w).1
          then ((emit plan window w).0, true)
          else emit_all plan windows (emit plan window w).0)
  unfolding emit_all
  emit_all_step window windows w = ground arith

  emit_reached :
      (window : Window) (w : Writer)
      → w.ordinal < plan.target
      → (emit plan window w).1 ≡ leb plan.target (emit plan window w).0.ordinal
  unfolding emit
  emit_reached window w h = ground arith

  window_loop_short :
      (fuel : ℕ) (b : Buffer) (w : Writer)
      → length b.tokens < plan.width + 1
      → window_loop fuel plan b w ≡ ((b, w), false)
  unfolding window_loop
  window_loop_short zero b w h = refl
  window_loop_short (suc fuel) b w h = ground arith

  window_loop_step :
      (fuel : ℕ) (b : Buffer) (w : Writer)
      → plan.width + 1 ≤ length b.tokens
      → window_loop (suc fuel) plan b w ≡ (
          if (emit plan (window_of plan.width b) w).1
          then ((b, (emit plan (window_of plan.width b) w).0), true)
          else window_loop fuel plan
              (rest_of plan.width b)
              (emit plan (window_of plan.width b) w).0)
  unfolding window_loop
  window_loop_step fuel b w h = ground arith

  -- What a run of the loop has left to do, where `later` is still to come.
  pub record IsCut (b later : Buffer) (w : Writer) (out : (Buffer × Writer) × Bool) : Type 0 where
    pub reached :
        out.1 ≡ true
        → (emit_all plan (windows_of plan.width (append_buffer b later)) w ≡ (out.0.1, true))
          × (plan.target ≤ out.0.1.ordinal)
    pub open_yet :
        out.1 ≡ false
        → (emit_all plan (windows_of plan.width (append_buffer b later)) w
            ≡ emit_all plan (windows_of plan.width (append_buffer out.0.0 later)) out.0.1)
          × IsLevel out.0.0
          × (length out.0.0.tokens < plan.width + 1)
          × (out.0.1.ordinal < plan.target)

  module _ (positive : 0 < plan.width) where
    pub window_loop-IsCut :
        (fuel : ℕ) (b later : Buffer) (w : Writer)
        → IsLevel b
        → length b.tokens ≤ fuel
        → w.ordinal < plan.target
        → IsCut b later w (window_loop fuel plan b w)
    window_loop-IsCut zero b later w level f h =
        rw (window_loop_short zero b w (omega arith)) (record {
          reached = λ e. absurd (ground arith);
          open_yet = λ e. (refl, level, omega arith, h);
        })
    window_loop-IsCut (suc fuel) b later w level f h =
        elim (Bool-cases (leb (plan.width + 1) (length b.tokens))) [
          | inr short ↦ rw (window_loop_short (suc fuel) b w (omega tests)) (record {
            reached = λ e. absurd (ground arith);
            open_yet = λ e. (refl, level, omega tests, h);
          })
          | inl long ↦
              let fits : plan.width + 1 ≤ length b.tokens = omega tests in
              let next = (emit plan (window_of plan.width b) w).0 in
              let all : emit_all plan (windows_of plan.width (append_buffer b later)) w ≡ (
                  if (emit plan (window_of plan.width b) w).1
                  then (next, true)
                  else emit_all plan
                      (windows_of plan.width (append_buffer (rest_of plan.width b) later)) next) =
                ap (λ ws. emit_all plan ws w)
                  (windows_of_full_append plan.width positive b later level fits)
                ∙ emit_all_step (window_of plan.width b) _ w in
              let ends : (emit plan (window_of plan.width b) w).1 ≡ leb plan.target next.ordinal =
                emit_reached (window_of plan.width b) w h in
              elim (Bool-cases (emit plan (window_of plan.width b) w).1) [
                | inl e ↦
                    rw (window_loop_step fuel b w fits, e)
                      (record {
                        reached = λ q. (all ∙ rw e refl, ground (arith, ends, e));
                        open_yet = λ q. absurd (ground arith);
                      })
                | inr e ↦
                    let same : emit_all plan (windows_of plan.width (append_buffer b later)) w
                        ≡ emit_all plan
                            (windows_of plan.width (append_buffer (rest_of plan.width b) later))
                            next =
                      all ∙ rw e refl in
                    let later_cut : IsCut (rest_of plan.width b) later next
                        (window_loop fuel plan (rest_of plan.width b) next) =
                      window_loop-IsCut fuel (rest_of plan.width b) later next
                        (rest_of-IsLevel plan.width positive b level fits)
                        (omega (arith, length-drop plan.width b.tokens))
                        (ground (arith, ends, e)) in
                    rw (window_loop_step fuel b w fits, e)
                      (record {
                        reached = λ q. (same ∙ (later_cut.reached q).0, (later_cut.reached q).1);
                        open_yet = λ q. (
                          same ∙ (later_cut.open_yet q).0,
                          (later_cut.open_yet q).1,
                          (later_cut.open_yet q).2,
                          (later_cut.open_yet q).3,
                        );
                      })
              ]
        ]
