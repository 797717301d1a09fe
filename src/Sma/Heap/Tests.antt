-- ===== src/Sma/Heap/Tests.antt =====
-- Runs of a small segment whose memory is tiled.
use pecl_caching_apc.Base.{
  ℕ, ◌+◌, ◌≤◌, ◌<◌, ◌≡◌, ◌≢◌, ◌⊎◌, [], ◌∷◌, Option, none, some, arith, refl, true,
}
use pecl_caching_apc.Sma.{
  Blocks, Segment, Allocation, fails, aborts, allocates, allocate, real_size, block_size,
  search_fit, take_block, unlink, split, set_size, set_fnext, set_fprev, set_prev_size, set_canary,
  reset_canary, check_canary, write,
}
use pecl_caching_apc.Sma.Deallocate.{deallocate, join_prev, join_next, put_first}
use pecl_caching_apc.Sma.Layout.{init_segment}
use pecl_caching_apc.Sma.Heap.Links.{occurs}
use pecl_caching_apc.Sma.Heap.Fields.{sizes}
use pecl_caching_apc.Sma.Heap.Tiles.{free, used}
use pecl_caching_apc.Sma.Heap.Allocate.{IsHeap, Allocated, parted, parted-IsHeap}
use pecl_caching_apc.Sma.Heap.Serve.{allocate-Allocated}
use pecl_caching_apc.Sma.Heap.GiveBack.{Deallocated, deallocate-Deallocated}
use pecl_caching_apc.Sma.Heap.Begin.{all_free, init_segment-IsHeap}
use pecl_caching_apc.Sma.Heap.Histories.{
  Reached, initial, allocation, release, Kept, last_block, Reached-Kept,
}
use pecl_caching_apc.Sma.Heap.Safety.{Reached-runs, Reached-disjoint, Reached-serves, serves}

abbrev no_blocks : Blocks
no_blocks p = record { size = 0; prev_size = 0; fnext = 0; fprev = 0; canary = 0 }

abbrev empty : Segment
empty = init_segment 64 4096 no_blocks

abbrev segment_of : Allocation → Segment
segment_of fails = empty
segment_of aborts = empty
segment_of (allocates off n seg) = seg

-- A block of 144 bytes, then one of 64.
abbrev one_block : Segment
one_block = segment_of (allocate 100 0 empty)

abbrev two_blocks : Segment
two_blocks = segment_of (allocate 20 0 one_block)

one_block_runs : allocate 100 0 empty ≡ allocates 144 104 one_block
unfolding allocate take_block search_fit real_size split unlink set_size set_fnext set_fprev
    set_prev_size set_canary check_canary write init_segment
one_block_runs = refl

two_blocks_runs : allocate 20 0 one_block ≡ allocates 288 24 two_blocks
unfolding allocate take_block search_fit real_size split unlink set_size set_fnext set_fprev
    set_prev_size set_canary check_canary write init_segment
two_blocks_runs = refl

abbrev reached_one : Reached 64 4096 no_blocks one_block (104 ∷ [])
reached_one = allocation 100 0 104 104 one_block initial (omega arith) one_block_runs

abbrev reached_two : Reached 64 4096 no_blocks two_blocks (248 ∷ 104 ∷ [])
reached_two = allocation 20 0 248 24 two_blocks reached_one (omega arith) two_blocks_runs

-- The first block is freed, then the other one.
abbrev freed : Option (ℕ × Segment) → Segment
freed none = empty
freed (some r) = r.1

abbrev last_held : Segment
last_held = freed (deallocate 144 two_blocks)

abbrev all_freed : Segment
all_freed = freed (deallocate 288 last_held)

last_held_runs : deallocate 144 two_blocks ≡ some (144, last_held)
unfolding allocate take_block search_fit real_size split unlink set_size set_fnext set_fprev
    set_prev_size set_canary check_canary write init_segment deallocate join_prev join_next
    put_first reset_canary
last_held_runs = refl

all_freed_runs : deallocate 288 last_held ≡ some (64, all_freed)
unfolding allocate take_block search_fit real_size split unlink set_size set_fnext set_fprev
    set_prev_size set_canary check_canary write init_segment deallocate join_prev join_next
    put_first reset_canary
all_freed_runs = refl

abbrev reached_last : Reached 64 4096 no_blocks last_held (248 ∷ [])
reached_last = release (248 ∷ []) [] 104 144 last_held reached_two last_held_runs

abbrev reached_none : Reached 64 4096 no_blocks all_freed []
reached_none = release [] [] 248 64 all_freed reached_last all_freed_runs

empty-IsHeap : IsHeap empty (all_free 64 4096) (104 ∷ [])
empty-IsHeap = init_segment-IsHeap 64 4096 no_blocks (omega arith) (omega arith)

allocate-Allocated_example : Allocated empty (all_free 64 4096) 100 (allocate 100 0 empty)
allocate-Allocated_example =
    allocate-Allocated 100 0 empty (omega arith) (all_free 64 4096) (104 ∷ []) empty-IsHeap

cut-IsHeap : IsHeap (parted empty 104 144) (used 144 ∷ free 3768 ∷ []) (248 ∷ [])
unfolding real_size init_segment
cut-IsHeap =
    parted-IsHeap 100 empty [] 144 3768 [] [] [] empty-IsHeap (omega arith) refl (omega arith)

deallocate-Deallocated_example :
    Deallocated
      (parted empty 104 144)
      (used 144 ∷ free 3768 ∷ [])
      104
      (deallocate 144 (parted empty 104 144))
unfolding init_segment
deallocate-Deallocated_example =
    deallocate-Deallocated (parted empty 104 144) (used 144 ∷ free 3768 ∷ []) (248 ∷ []) 104
      cut-IsHeap (omega arith)

Reached-Kept_example : Kept 64 (last_block 64 4096) last_held (248 ∷ [])
Reached-Kept_example = Reached-Kept 64 4096 no_blocks (omega arith) (omega arith) reached_last

Reached-runs_example :
    (allocate 30 48 last_held ≢ aborts)
    × ((c : ℕ) → 0 < occurs c (248 ∷ []) → deallocate (c + block_size) last_held ≢ none)
Reached-runs_example =
    Reached-runs 64 4096 no_blocks (omega arith) (omega arith) 30 48 last_held (248 ∷ [])
      reached_last (omega arith)

Reached-disjoint_example :
    ((104 + sizes two_blocks.blocks 104 ≤ 248) ⊎ (248 + sizes two_blocks.blocks 248 ≤ 104))
    × (104 ≤ 104)
    × (104 + sizes two_blocks.blocks 104 + 80 ≤ 4096)
Reached-disjoint_example =
    Reached-disjoint 64 4096 no_blocks (omega arith) (omega arith) two_blocks (248 ∷ 104 ∷ []) 104
      248 reached_two (omega arith) (omega arith) (omega arith)

Reached-serves_example : serves 3800 144 (allocate 3800 0 all_freed) ≡ true
unfolding real_size
Reached-serves_example =
    Reached-serves 64 4096 no_blocks (omega arith) (omega arith) 3800 0 all_freed reached_none
      (omega arith) (omega arith)
