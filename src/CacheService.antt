-- ===== src/CacheService.antt =====
-- internal/server/rpc_cache.go: the four handlers of the cache service. The identity that the
-- middleware put into the context is `ctx`.
pub mod Convert
pub mod Handlers
pub mod Get
pub mod Owner
pub mod Lifecycle
pub mod Publish
pub mod Indexed
pub mod Outcomes
pub mod Visible
pub mod Returns
