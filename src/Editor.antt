-- ===== src/Editor.antt =====
-- src/chat/input_editor.rs: the single-line input editor of the chat interface.
-- `State` has the data, `Operations` the methods in the source's order, and the children below
-- them the proofs.
pub mod Text
pub mod State
pub mod Operations
pub mod History
pub mod Boundaries
pub mod Cursor
pub mod Words
pub mod Eviction
pub mod Calls
pub mod Valid
pub mod Safety
pub mod Refinement
pub mod Browse
pub mod Search
