-- ===== src/Lib.antt =====
-- APC, the Alternative PHP Cache: what its caches, its shared memory allocator, its pools, its
-- pointer stack, its iterator and its upload progress do, and why that is right.
--
-- The program. Two caches, one of compiled files and one of user values, lie in shared memory
-- (apc_cache.c, apc_cache.h). A cache is a table of chains of slots under one lock; a slot leads
-- to an entry with a count of its users. An entry that is removed while in use waits on a pending
-- list. Entries live in pools (apc_pool.c, apc_pool.h), which take blocks from the shared memory
-- allocator (apc_sma.c, apc_sma.h); where that runs out it calls the caches back to expunge. The
-- iterator keeps its items on a growing array (apc_stack.c).
--
-- Files.
-- - Base and its children: Boolean tests, lists and integers over the native numbers, and the
--   words of 64 bits with `ALIGNSIZE` and `ALIGNWORD`.
-- - Stack: apc_stack.c, one function per function. Stack/Laws refines it to a list.
-- - Iterator: apc_iterator.c and apc_iterator.h, and `apc_flip_hash` of apc.c. Iterator/Items:
--   the items, the search and the expiry test. Iterator/Fetch: the two fetches and the totals.
--   Iterator/Methods: the methods of the class. Iterator/Walk and Iterator/Complete: a loop over
--   the active list. Iterator/Deleted: one over the deleted list. Iterator/Names and
--   Iterator/Totals: keys, searches and totals.
-- - Cache/Types: the structures of apc_cache.h. Cache/Lock: the locking macros; a section runs
--   under the lock, and a process that takes a lock that it holds ends in `deadlock`.
--   Cache/Slots: key tests, expiry, `remove_slot`, `process_pending_removals`. Cache/Insert,
--   Cache/Find and Cache/Clean: the operations, each a loop over a chain (`..._walk`), a part
--   under the lock and the whole. Cache/Create: `apc_cache_create`, keys and entries.
-- - Cache/Walks to Cache/Sweeps: what one walk, one section and one sweep change.
--   Cache/Histories: calls as data. Cache/Effects and Cache/Calls: what a call changes.
--   Cache/Invariant, Cache/Counts, Cache/Taken and Cache/Release: histories, and the release of
--   an entry. Cache/Lookup, Cache/UserMap and Cache/Removal: the user cache as a map.
--   Cache/Failure: inserts out of memory. Cache/Slam: the slam defense. Cache/Start: new caches.
-- - Sma: one segment, and `sma_allocate` on block headers by offset. Sma/Deallocate and
--   Sma/Layout: `sma_deallocate`, and what `apc_sma_init` writes. Sma/Segments: the segments
--   together. Sma/Info: the free list of `apc_sma_info`. Sma/Fit, Sma/Start, Sma/Exhaustion and
--   Sma/Protect: theorems on these.
-- - Sma/Heap: the memory of a segment. Links and Sentinel: doubly linked lists in memory. Tiles
--   and Runs: the blocks by size, and their headers. Tiled: the whole memory in order. Take, Cut,
--   Choose, Allocate and Serve: `sma_allocate`, a block taken whole or cut, the search, the
--   function. Join, Merge, Put, Open, Release and GiveBack: `sma_deallocate`, the joins, the
--   return to the free list, the function. Begin, Histories and Safety: what `apc_sma_init`
--   writes, and what any sequence of allocations and frees leaves.
-- - Pool: the structures of apc_pool.c, its red zones and blocks. Pool/Alloc, Pool/Cleanup and
--   Pool/Create: the operations of `apc_realpool`. Pool/Sizes, Pool/Carving, Pool/Laws and
--   Pool/Start: its books.
-- - Upload: apc_rfc1867.c, with its data of apc_globals.h and `OnUpdateRfc1867Freq` of php_apc.c.
--   Upload/Text: the string functions of the C library that it calls. Upload/Tracks: the stored
--   arrays, their updater and the frequency setting. Upload/Progress: the handler of the events,
--   a function per event, which gives the calls on the user cache as a list. Upload/Keys: the
--   room of the key, and that a started upload keeps it. Upload/Reports: the entry's name and its
--   array. Upload/Lag: the count that the entry shows. Upload/Frequency: frequencies in percent.
-- - The modules Tests: every theorem with conditions, used at a concrete state.
--
-- Conventions. A function takes the state and returns it. Each operation is given the time that
-- it reads, once; `now` is `time(0)` and `t` the time that the caller passes. Numbers of the type
-- `size_t` and `unsigned long` wrap at 2^64 where the code computes with them; times, and the
-- counters that a build of this kind cannot exhaust, do not. `num_entries` and the reference
-- counts are integers. The builds are those of 64 bits, without ZTS, without atomic read locks
-- (`USE_READ_LOCKS` is 0), with canaries and, for apc_sma.c, with APC_MEMPROTECT. The two ttl
-- settings and the format of an iterator are not negative, and the fragment size that a request
-- leaves is small, so that it does not wrap. What the code does not define itself is an argument:
-- the engine's hash function, the outcome of each allocation in `make_slot`, the updater of
-- `_apc_cache_user_update`, the files and settings behind a file key, what the allocator answers
-- to an expunge, the expunge callbacks and the clients' state in Sma/Segments, for the upload
-- progress what `zend_atoi` reads, the time and what `_apc_update` returns, and for the iterator
-- the regular expression, the digest that prints a hash, and the copy of a value. `memcmp` on a
-- user key reads the slot's identifier; where that is shorter, the model says that it differs.
--
-- Fuel. The search of `sma_allocate` has the bytes of the segment as fuel, which is more than its
-- free blocks can be, since each takes 40 bytes at least; the theorem on the search shows that
-- more fuel than free blocks suffices. The list of `apc_sma_info` has the fuel that its theorem
-- asks for. The fetch of the active list has the chains that are left as fuel, one a round, and
-- the digits of a number twenty rounds, enough for a word. A loop over an iterator has rounds:
-- the theorem on the active list shows that more rounds than items suffice, the one on the
-- deleted list that none do. The integrity check of a pool block has its mark as fuel, and takes
-- 8 bytes a round. Everything else recurs on lists.
--
-- Not modelled. `make_slot` takes memory from a pool, which may call the expunge of the same
-- cache while an insert holds a place in a chain; here the allocation has an outcome and no other
-- effect. The locks of the segments are left aside, since an allocation is one step.
-- apc_cache_info, `apc_iterator_delete`, the signal handlers, the copying of compiled code and
-- values, the binary dumps and the glue to the engine are not modelled, nor are the system calls
-- that map memory and lock.
mod Base
pub mod Stack
pub mod Upload
pub mod Iterator
pub mod Cache
pub mod Pool
pub mod Sma
