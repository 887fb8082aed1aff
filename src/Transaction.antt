-- ===== src/Transaction.antt =====
-- packages/transaction: the shielded transaction and its encoding.
pub mod Fp
pub mod Buffer
pub mod ZkTx
pub mod Size
pub mod NoteSum
pub mod TxBuilder
pub mod Samples
mod Tests
