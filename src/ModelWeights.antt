-- ===== src/ModelWeights.antt =====
-- internal/modelweights: Safetensors files and the names of their tensors.
pub mod Names
pub mod Safetensors
