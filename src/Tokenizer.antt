-- ===== src/Tokenizer.antt =====
-- internal/tokenizer: the byte-level BPE tokenizer, its artifact and the legacy piece tokenizer.
pub mod Utf8
pub mod Chunks
pub mod Merge
pub mod Artifact
pub mod Codec
pub mod Legacy
pub mod Codecs
mod Tests
