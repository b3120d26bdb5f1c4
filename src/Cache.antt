-- ===== src/Cache.antt =====
-- internal/cache: the Redis cache, the cache of OAuth2 tokens and the cache of query results.
pub mod Store
pub mod Token
pub mod Query
pub mod Connect
pub mod Changes
pub mod Steps
pub mod Soundness
pub mod Answers
pub mod Stale
pub mod Lock
pub mod Results
mod Tests
