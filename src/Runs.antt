-- ===== src/Runs.antt =====
-- The theorems at concrete inputs.
pub mod File
pub mod Lines
pub mod Tensors
pub mod Linked
pub mod Tokens
pub mod Sampled
pub mod Configured
pub mod Pieces
