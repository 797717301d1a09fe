-- ===== src/Cache.antt =====
-- apc_cache.h and apc_cache.c: the shared cache, a hash table of chained slots.
pub mod Types
pub mod Slots
pub mod Lock
pub mod Insert
pub mod Find
pub mod Clean
pub mod Create
pub mod Walks
pub mod Accounting
pub mod Pending
pub mod Insertion
pub mod Changes
pub mod Operations
pub mod Sweeps
pub mod Histories
pub mod Effects
pub mod Calls
pub mod Invariant
pub mod Counts
pub mod Taken
pub mod Release
pub mod Lookup
pub mod UserMap
pub mod Removal
pub mod Failure
pub mod Start
pub mod Slam
mod Tests
