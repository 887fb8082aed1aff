-- ===== src/Block.antt =====
-- packages/core/src/block: the block, its serialization, its hashes and its mass migrations.
pub mod Parsing
pub mod Types
pub mod Header
pub mod Mass
pub mod Txs
pub mod Agrees
pub mod TxsRoundTrip
pub mod Whole
pub mod RoundTrip
pub mod Binding
pub mod Migrations
pub mod Samples
mod Tests
