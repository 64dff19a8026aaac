-- ===== src/KvCache.antt =====
-- src/model/kv_cache.rs: the quantised key/value cache of the decoder.
-- State: what a cache holds. Cache: the operations. Valid: the invariant.
-- Rollback: that a rollback undoes any appends.
pub mod State
pub mod Cache
pub mod Valid
pub mod Rollback
