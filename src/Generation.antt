-- ===== src/Generation.antt =====
-- src/model/generate.rs: the generation loops. The forward passes and the cache they write are an
-- interface, `Model`.
pub mod Run
pub mod Budget
pub mod Loops
pub mod Limits
pub mod Output
pub mod Greedy
