-- ===== src/BlockProcessing.antt =====
-- The processing of the transactions of a block (block_processing/).
pub mod Interfaces
pub mod SerialTransactionHandler
pub mod SerialTransactionProcessor
pub mod SerialTransactionValidator
pub mod Outcomes
mod Tests
