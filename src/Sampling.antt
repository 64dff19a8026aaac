-- ===== src/Sampling.antt =====
-- src/model/sampler.rs, and `argmax` of src/model/lm_head.rs. `F` stands for `f32`, whose operations
-- are a parameter.
pub mod State
pub mod Filters
pub mod Sample
pub mod Penalty
pub mod Bounds
pub mod Rollback
