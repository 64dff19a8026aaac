-- ===== src/Gguf.antt =====
-- src/gguf: the GGUF container.
pub mod Types
pub mod Result
pub mod Outcome
pub mod Lengths
pub mod Cursor
pub mod Values
pub mod Header
pub mod Views
pub mod Linker
