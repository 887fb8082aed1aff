-- ===== src/Coordinator.antt =====
-- packages/coordinator: the pool of the transactions that wait for a block.
pub mod TxPool
pub mod AuctionMonitor
mod Tests
