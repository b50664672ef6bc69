-- ===== src/Filtering.antt =====
-- The filter that drops, before a block is built, the transactions of an account that could fail
-- (filtering/).
pub mod AccountCreationFilter
pub mod AccountFilterEntry
mod Tests
