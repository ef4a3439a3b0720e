-- ===== src/Cache.antt =====
-- The disk cache, src/cache: the LRU byte store, the snapshot envelope and the shared-prefix cache.
pub mod Store
pub mod Manager
pub mod Prefix
