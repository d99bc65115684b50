-- ===== src/Model.antt =====
-- internal/model: the records of a model's build and the resources that it needs.
pub mod Observation
