-- ===== src/Orderbook.antt =====
-- Orderbooks (orderbook/): the index of an orderbook, its supply and demand, the clearing of an
-- offer and of an orderbook, the commit and the rollback of a block, and the check of the clearing
-- that a block header commits to.
pub mod Categories
pub mod Clearing
pub mod CommitmentChecker
pub mod Demand
pub mod Interfaces
pub mod ClearOffers
pub mod RoundTrie
pub mod Rounds
mod Tests
