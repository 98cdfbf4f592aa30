-- ===== src/Cache.antt =====
-- internal/cache: the bounded expiring cache and the coalescer of concurrent loads.
pub mod Lru
pub mod Coalescer
