-- ===== src/MemoryDatabase.antt =====
-- Account state (memory_database/): one module for each class.
pub mod RevertableAsset
pub mod SequenceTracker
pub mod UserAccount
pub mod UserAccountView
pub mod AccountVector
pub mod MemoryDatabase
pub mod MemoryDatabaseView
mod Tests
