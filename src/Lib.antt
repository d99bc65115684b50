-- ===== src/Lib.antt =====
-- WALDO, https://github.com/openwaldo/waldo: models and proofs of the parts of the Go program that
-- decide what a model is trained on: the tokens of a text, the plan of a run and the sequences that
-- a node gets, the reports of a worker, and the redaction and the licences of a corpus.
--
-- The parts, and how they work together. `internal/tokenizer` holds the trained tokenizer: an
-- artifact, a document pinned by its digest, from which `Artifact.Codec` builds the codec that
-- training and inference share. `internal/training` plans a run before it starts: it holds some
-- rows of the corpus out for evaluation, tokenizes each other record with that codec, where a
-- conversation has targets in the replies alone, packs the records with an end token between
-- them into one stream, and counts the windows of the stream that have a target. Before that, it
-- resolves the declared parameters of a stage to those of the run, and places the run on the
-- GPUs of a world. The sequences that a node gets may be kept in chunks on disk, and read back
-- by a later run. A worker of a backend trains, and writes frames; what it reports at the end is
-- checked in `internal/model`, the tensors it writes in `internal/modelweights`.
-- `internal/corpus` decides by its licence what may be trained on, `internal/ingest` removes
-- personal data from it, `internal/record` says what a record is. `internal/canon` writes the
-- JSON strings of the formats whose digests the program compares.
--
-- Files and code:
--   Base.antt, Base/           names of the libraries, Boolean tests, lists, bytes and results
--   Tokenizer/Utf8.antt        what internal/tokenizer/trained.go uses of unicode/utf8 and unicode
--   Tokenizer/Chunks.antt      lexicalRuns, byteBPEChunks, appendSplitChunks of trained.go
--   Tokenizer/Merge.antt       pair, mergePair, sequencePairCounts of trained.go
--   Tokenizer/Artifact.antt    Artifact, IsTrainedName, Validate, artifactRevision of trained.go
--   Tokenizer/Codec.antt       bpeCodec of trained.go: its tables, Encode, Count and Decode
--   Tokenizer/Legacy.antt      legacyCodec of trained.go
--   Tokenizer/Codecs.antt      Artifact.Codec of trained.go, and the interface Codec of tokenizer.go
--   Training/Capacity.antt     sequenceCapacityPacker of internal/training/stream.go with
--                              addRecordCapacity, trainingSequenceCapacityWithProgress,
--                              TrainingSteps and trainingStepCapacityWithProgress
--   Training/Epochs.antt       WithMinimumEpochsForStepsProgress and minimumEpochsForSequences there
--   Training/Product.antt      multiplyInt64 of internal/training/profile.go
--   Training/Profile.antt      the rest of profile.go: Profile/Types has the structs of
--                              internal/training/backend.go, Profile/Stages and Profile/Resolve
--                              have resolveParameters and what calls it
--   Training/Protocol.antt     Validate of the frames in internal/training/protocol.go
--   Training/Prepared.antt     writePreparedSequences of protocol.go, without a cache
--   Training/Conversation.antt internal/training/conversation.go, and what addRecordCapacity of
--                              stream.go takes of it
--   Training/Written.antt      the planned capacity against the frames that are written
--   Training/Selection.antt    indexedEvaluationCandidates of stream.go
--   Training/Selection/Indexed.antt
--                              newIndexedRecordPartition there, up to the rows selected
--   Training/Cache.antt        encodePreparedSequence and decodePreparedChunk of
--                              internal/training/prepared_cache.go
--   Training/Cache/Writer.antt Append and closeChunk there
--   Training/Parallelism.antt  resolveTorchTitanParallelism of internal/training/torchtitan.go and
--                              Parallelism.Validate of backend.go
--   Model/Observation.antt     validateBackendObservation, CheckArtifactFile and VerifyArtifactFile of
--                              internal/model/observation.go
--   ModelWeights/Names.antt    internal/modelweights/names.go
--   ModelWeights/Safetensors.antt
--                              Inspect of internal/modelweights/safetensors.go, and what it calls
--   Record.antt                Conversation.Validate of internal/record/record.go
--   Ingest/Privacy.antt        redactPrivacy of internal/ingest/privacy_redaction.go
--   Ingest/Values.antt         redactJSONValue there
--   Corpus/Policy.antt         internal/corpus/policy.go
--   Canon.antt                 AppendString of internal/canon/canon.go
-- A folder beside a file holds what is proved of it: Tokenizer/Chunks/Concat,
-- Tokenizer/Merge/Laws, Tokenizer/Artifact/Valid, Tokenizer/Codec/Build, RoundTrip, Normal and
-- Bounds, Tokenizer/Legacy/RoundTrip, Tokenizer/Codecs/RoundTrip, Training/Capacity/Windows,
-- Counting, Supervised, Records, Exact and Steps, Training/Epochs/Least,
-- Training/Profile/Resolved and Budget, Training/Parallelism/Placed, Training/Protocol/Frames,
-- Training/Prepared/Windows, Loop, Stream, Planned and Owners, Training/Conversation/Targets and
-- Masked, Training/Selection/Stride and Distinct, Training/Selection/Indexed/Groups, Rounds and
-- Kept, Training/Cache/Words, Masks and RoundTrip, Training/Cache/Writer/Held, Stored and
-- Unbounded, Model/Observation/Artifacts, Sound and Selected, ModelWeights/Names/RoundTrip,
-- ModelWeights/Safetensors/Sizes and Covered, Ingest/Privacy/Settled and Headers,
-- Ingest/Values/Strings and Redacted, Corpus/Policy/Entries, Allowed and Compact, Canon/Decode
-- and RoundTrip. Tests hold inputs at which the definitions are run.
--
-- State and operations. A byte is a number below 256, a string a list of bytes, and an int that
-- is never negative in the code a natural number, with no overflow except where the code tests
-- for it. Go's maps are association lists, the table of legacy pieces a function of the first
-- byte; the consumption of a sequence is a list of pairs in the order of the names, the header
-- of a Safetensors file a list in the order in which Go happens to range over it. A method that
-- changes its receiver returns the changed record; an error is a value of the model's own type,
-- with the messages left out. `json.Marshal`, SHA-256 and base64 are the fields of `Encodings`,
-- and the tables of Unicode those of `Tables`: theorems hold for all of them. So are float64
-- (`Floats`), the files of a run (`Files`), and the functions of Go's packages that policies,
-- redaction, conversations, the selection of rows and tensor files call (`Library` of each).
-- Where a theorem needs what is documented of them, it takes it as a hypothesis: `FloatLaws`,
-- `SearchLaws`. An int64 that may be negative is an integer of Base/Int, and a string that is
-- only compared a native string. A chunk of prepared sequences is the bytes of its file, without
-- its path and its digest. Where Go would panic on a division by zero, as
-- `writePreparedSequences` on a gradient accumulation of 0, which a validated profile excludes,
-- the model's division is total.
--
-- Fuel. The loop of `lexicalRuns` is on the text itself. A loop on fuel gets the length of what
-- it shortens: the splitting of a chunk and the legacy codec's loop take a byte or more in each
-- round, the merge loop a symbol, the packer's loops a token, the reading of a chunk a byte, so
-- none needs more rounds than it is given. The loop over the windows of prepared sequences takes
-- a token or more in a round, and gets their number. Euclid's loop makes its right side smaller
-- in each round, and gets one more than that. The search for a stride ends at one that is
-- coprime to the number of records, and gets that number. The passes over the records are at
-- most the million of the code. The rounds of redaction are the eight of the code.
--
-- Not modelled: `TrainByteBPE`, the registry of third-party tokenizers, the reading of shards (a
-- record comes as it was read, or as an error), reports of progress and cancellation, the
-- evaluation set that is made of the selected rows and the selection that scans the whole
-- corpus, the manifest of the cache of prepared sequences and its replay, failures of files and
-- of the pipe to a worker, the decoding of JSON, `NormalizeHuggingFace`, the records other than
-- conversations, and the other packages of the program.
pub mod Base
pub mod Canon
pub mod Corpus
pub mod Ingest
pub mod Model
pub mod ModelWeights
pub mod Record
pub mod Tokenizer
pub mod Training
