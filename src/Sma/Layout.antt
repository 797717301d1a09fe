-- ===== src/Sma/Layout.antt =====
-- apc_sma.c: what `apc_sma_init` writes into a segment.
use pecl_caching_apc.Base.{ℕ, ◌+◌, sub64}
use pecl_caching_apc.Sma.{Block, Blocks, write, canary_value, block_size, Segment}

-- The blocks that `apc_sma_init` writes: the list head, one free block, and the sentinel.
unfoldable pub init_segment : (first segsize : ℕ) → Blocks → Segment
init_segment first segsize m =
    let avail = sub64 (sub64 (sub64 segsize first) block_size) block_size in
    let empty = first + block_size in
    let size = sub64 avail block_size in
    let last = empty + size in
    let head : Block = record {
      size = 0;
      prev_size = 0;
      fnext = empty;
      fprev = 0;
      canary = canary_value;
    } in
    let middle : Block = record {
      size = size;
      prev_size = 0;
      fnext = last;
      fprev = first;
      canary = canary_value;
    } in
    let sentinel : Block = record {
      size = 0;
      prev_size = size;
      fnext = 0;
      fprev = empty;
      canary = canary_value;
    } in
    record {
      first = first;
      segsize = segsize;
      avail = avail;
      blocks = write (write (write m first head) empty middle) last sentinel;
    }
