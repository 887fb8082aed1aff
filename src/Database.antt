-- ===== src/Database.antt =====
-- packages/database: the cache of the writes that wait for the confirmations of their block.
pub mod BlockCache
mod Tests
