-- ===== src/Validator.antt =====
-- packages/core/src/validator/offchain: whether a block can be slashed.
pub mod Migration
pub mod Header
pub mod Trees
pub mod Txs
mod Tests
