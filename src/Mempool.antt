-- ===== src/Mempool.antt =====
-- The pool of pending transactions (mempool/mempool.cc, mempool/mempool.h).
pub mod Vectors
pub mod MempoolChunk
pub mod Pool
mod Tests
