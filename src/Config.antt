-- ===== src/Config.antt =====
-- src/model/config.rs and src/model/architecture/: the hyper-parameters of a model, from its metadata.
pub mod Keys
pub mod Read
pub mod Architecture
pub mod Entries
pub mod Valid
pub mod Families
