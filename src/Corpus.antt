-- ===== src/Corpus.antt =====
-- internal/corpus: which licences a policy lets into a corpus.
pub mod Policy
