-- ===== src/KvCache.antt =====
-- src/kv_cache_manager.h and .cpp: the paged KV cache.
pub mod Pool
pub mod Manager
pub mod Codec
pub mod Storage
