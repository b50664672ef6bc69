-- ===== src/ModLog.antt =====
-- The log of the accounts that a block modifies (modlog/).
pub mod AccountModificationEntry
mod Tests
