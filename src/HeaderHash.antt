-- ===== src/HeaderHash.antt =====
-- The map of block hashes (header_hash/).
pub mod BlockHeaderHashMap
