-- ===== src/Training/Prepared.antt =====
-- `writePreparedSequences` of internal/training/protocol.go: the frames that one node of a run gets,
-- where no cache of prepared sequences is kept and the frames can be written.
pub mod Windows
pub mod Loop
pub mod Stream
pub mod Planned
pub mod Owners
pub mod Tests
use Prim.Native.String.{String}
use waldo.Base.{
  ℕ, zero, suc, ◌+◌, ◌-◌, ◌*◌, ◌/◌, ◌%◌, Bool, true, false, not, ◌&&◌, ◌||◌, Option, none, some,
  List, [], ◌∷◌, ◌++◌, length, take, drop, replicate, ltb, leb, ◌==◌, if◌then◌else◌,
}
use waldo.Base.Int.{ℤ, is_negative, is_positive, ltb_ℤ, to_nat, pos}
use waldo.Base.Text.{text_eq}
use waldo.Base.Results.{Result, ok, err, ◌>>=◌, ◌>>◌, reject_if}
use waldo.Training.Capacity.{has_true}
use waldo.Training.Product.{multiply_int64}

-- What the code reads of a record, with its loss mask, and of a worker's begin frame.
pub record PreparedRecord : Type 0 where
  pub tokens : List ℕ
  pub loss_mask : List Bool
  pub corpus : String

pub record WorkerBegin : Type 0 where
  pub world_size : ℤ
  pub gpus_per_node : ℤ
  pub data_node_rank : ℤ
  pub resume_step : Option ℕ
  pub steps : ℕ
  pub batch_size : ℕ
  pub gradient_accumulation : ℕ
  pub sequence_length : ℕ
  pub eos_id : ℕ

pub record PreparedSequence : Type 0 where
  pub ordinal : ℕ
  pub tokens : List ℕ
  pub loss_mask : List Bool
  pub consumption : List (String × ℕ)

pub data InputFrame : Type 0 where
  sequence : PreparedSequence → InputFrame
  micro_batch_end : InputFrame

pub data PreparedError : Type 0 where
  bad_topology : PreparedError
  resume_overflows : PreparedError
  target_overflows : PreparedError
  bad_loss_mask : PreparedError
  too_few_sequences : ℕ → PreparedError

-- What is computed before the first record.
pub record Plan : Type 0 where
  pub width : ℕ
  pub world_size : ℕ
  pub gpus_per_node : ℕ
  pub rank : ℕ
  pub eos_id : ℕ
  pub micro_batch : ℕ
  pub batch_size : ℕ
  pub resume : ℕ
  pub target : ℕ

pub resume_sequences : Option ℕ → ℕ → Option ℕ
resume_sequences none batch_size = some 0
resume_sequences (some step) batch_size = multiply_int64 (step ∷ batch_size ∷ [])

pub or_error : PreparedError → Option ℕ → Result PreparedError ℕ
or_error e none = err e
or_error e (some n) = ok n

pub topology_wrong : WorkerBegin → Bool
topology_wrong begin =
    ltb_ℤ begin.world_size (pos 2)
    || not (is_positive begin.gpus_per_node)
    || not (to_nat begin.world_size % to_nat begin.gpus_per_node == 0)
    || is_negative begin.data_node_rank
    || leb (to_nat begin.world_size / to_nat begin.gpus_per_node) (to_nat begin.data_node_rank)

pub prepare : WorkerBegin → Result PreparedError Plan
prepare begin = do
  reject_if (topology_wrong begin) bad_topology
  resume ← or_error resume_overflows (resume_sequences begin.resume_step begin.batch_size)
  target ← or_error target_overflows (multiply_int64 (begin.steps ∷ begin.batch_size ∷ []))
  ok (record {
    width = begin.sequence_length;
    world_size = to_nat begin.world_size;
    gpus_per_node = to_nat begin.gpus_per_node;
    rank = to_nat begin.data_node_rank;
    eos_id = begin.eos_id;
    micro_batch = begin.batch_size / begin.gradient_accumulation;
    batch_size = begin.batch_size;
    resume = resume;
    target = target;
  })

-- The three slices that are filled by the records and emptied by the windows.
pub record Buffer : Type 0 where
  pub tokens : List ℕ
  pub masks : List Bool
  pub corpora : List String

-- A piece of the tokens, with the mask and the corpora of its targets.
pub record Window : Type 0 where
  pub tokens : List ℕ
  pub mask : List Bool
  pub corpora : List String

-- `tokens[:window]`, `masks[1:window]` and `corpora[1:window]`
abbrev pub window_of : ℕ → Buffer → Window
window_of width b = record {
  tokens = take (width + 1) b.tokens;
  mask = take width (drop 1 b.masks);
  corpora = take width (drop 1 b.corpora);
}

abbrev pub rest_of : ℕ → Buffer → Buffer
rest_of width b = record {
  tokens = drop width b.tokens;
  masks = drop width b.masks;
  corpora = drop width b.corpora;
}

abbrev pub tail_of : Buffer → Window
tail_of b = record { tokens = b.tokens; mask = drop 1 b.masks; corpora = drop 1 b.corpora }

-- `consumption[corpus]++`
pub bump : String → List (String × ℕ) → List (String × ℕ)
bump corpus [] = (corpus, 1) ∷ []
bump corpus ((name, n) ∷ consumption) =
    if text_eq name corpus then (name, n + 1) ∷ consumption else (name, n) ∷ bump corpus consumption

pub consume : List Bool → List String → List (String × ℕ) → List (String × ℕ)
consume (true ∷ mask) (corpus ∷ corpora) consumption =
    consume mask corpora (bump corpus consumption)
consume (false ∷ mask) (corpus ∷ corpora) consumption = consume mask corpora consumption
consume mask corpora consumption = consumption

abbrev pub prepared : ℕ → Window → PreparedSequence
prepared ordinal window = record {
  ordinal = ordinal;
  tokens = window.tokens;
  loss_mask = window.mask;
  consumption = consume window.mask window.corpora [];
}

-- `ownerRank / GPUsPerNode`
abbrev pub owner_node : Plan → ℕ → ℕ
owner_node plan ordinal = ordinal % plan.world_size / plan.gpus_per_node

-- The frames of a supervised window.
pub frames_of : Plan → ℕ → Window → List InputFrame
frames_of plan ordinal window =
    (if owner_node plan ordinal == plan.rank && leb plan.resume ordinal
      then sequence (prepared ordinal window) ∷ []
      else [])
    ++ (if ltb plan.resume (ordinal + 1) && (ordinal + 1) % plan.micro_batch == 0
        then micro_batch_end ∷ []
        else [])

-- The ordinal and the frames written.
pub record Writer : Type 0 where
  pub ordinal : ℕ
  pub frames : List InputFrame

-- `emitSequence`, with whether the target is reached.
pub emit : Plan → Window → Writer → Writer × Bool
emit plan window w = if not (has_true window.mask) then (w, false) else (
  record { ordinal = w.ordinal + 1; frames = w.frames ++ frames_of plan w.ordinal window },
  leb plan.target (w.ordinal + 1),
)

-- The loop over the windows. A round takes a token or more, so their number is enough fuel.
pub window_loop : ℕ → Plan → Buffer → Writer → (Buffer × Writer) × Bool
window_loop zero plan b w = ((b, w), false)
window_loop (suc fuel) plan b w = elim (leb (plan.width + 1) (length b.tokens)) [
  | false ↦ ((b, w), false)
  | true ↦ elim (emit plan (window_of plan.width b) w).1 [
    | true ↦ ((b, (emit plan (window_of plan.width b) w).0), true)
    | false ↦ window_loop fuel plan (rest_of plan.width b) (emit plan (window_of plan.width b) w).0
  ]
]

-- What the record adds to the slices.
abbrev pub append_record : Plan → Buffer → PreparedRecord → Buffer
append_record plan b r = record {
  tokens = b.tokens ++ (r.tokens ++ plan.eos_id ∷ []);
  masks = b.masks ++ r.loss_mask;
  corpora = b.corpora ++ replicate (length r.loss_mask) r.corpus;
}

-- What the stream brings: a record, or a record after the worker has asked for no more.
pub data Arrival : Type 0 where
  arrives : PreparedRecord → Arrival
  stops : Arrival

-- `records.Stream`, with whether it was ended by `errWorkerReachedTarget`.
pub stream_loop :
    Plan → List Arrival → Buffer → Writer → Result PreparedError ((Buffer × Writer) × Bool)
stream_loop plan [] b w = ok ((b, w), false)
stream_loop plan (stops ∷ arrivals) b w = ok ((b, w), true)
stream_loop plan (arrives r ∷ arrivals) b w =
    let buffer = append_record plan b r in
    let out = window_loop (length buffer.tokens) plan buffer w in
    if not (length r.loss_mask == length r.tokens + 1)
    then err bad_loss_mask
    else elim out.1 [ true ↦ ok out | false ↦ stream_loop plan arrivals out.0.0 out.0.1 ]

-- What follows the stream; the target is a multiple of the batch size.
pub finish : Plan → (Buffer × Writer) × Bool → Result PreparedError (List InputFrame)
finish plan ((b, w), stopped) =
    let last : Writer = if ltb 1 (length b.tokens) then (emit plan (tail_of b) w).0 else w in
    if leb plan.target w.ordinal || stopped
    then ok w.frames
    else if ltb last.ordinal (plan.target - plan.batch_size + 1)
    then err (too_few_sequences last.ordinal)
    else ok last.frames

abbrev pub no_buffer : Buffer
no_buffer = record { tokens = []; masks = []; corpora = [] }

-- `writePreparedSequences`
pub write_prepared_sequences : WorkerBegin → List Arrival → Result PreparedError (List InputFrame)
write_prepared_sequences begin arrivals = do
  plan ← prepare begin
  out ← stream_loop plan arrivals no_buffer (record { ordinal = 0; frames = [] })
  finish plan out
