-- ===== src/Memory/Evict/Limit.antt =====
-- `cache_algorithm` where the request is exactly as large as a limit.
