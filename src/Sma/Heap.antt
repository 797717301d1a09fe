-- ===== src/Sma/Heap.antt =====
-- The blocks of a segment as tiles of its memory, and its free list among them.
pub mod Links
pub mod Sentinel
pub mod Fields
pub mod Tiles
pub mod Runs
pub mod Tiled
pub mod Take
pub mod Cut
pub mod Choose
pub mod Allocate
pub mod Serve
pub mod Join
pub mod Merge
pub mod Put
pub mod Open
pub mod Release
pub mod GiveBack
pub mod Begin
pub mod Histories
pub mod Safety
mod Tests
