-- ===== src/Cache.antt =====
-- src/cache: the expiry dictionary and the store.
pub mod ExpireDict
pub mod Storage
pub mod ExpirationChecker
