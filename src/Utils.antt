-- ===== src/Utils.antt =====
-- packages/utils: the root of the transactions of a block, and numbers in buffers.
pub mod Root
pub mod Numbers
mod Tests
