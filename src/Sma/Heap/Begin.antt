-- ===== src/Sma/Heap/Begin.antt =====
-- The segment that `apc_sma_init` writes, as a segment whose memory is tiled.
use pecl_caching_apc.Base.{ℕ, ◌+◌, ◌≤◌, ◌<◌, List, [], ◌∷◌, arith, refl, word_mod}
use pecl_caching_apc.Sma.{Blocks, write, block_size}
use pecl_caching_apc.Sma.Layout.{init_segment}
use pecl_caching_apc.Sma.Start.{free_size, init_segment-sizes}
use pecl_caching_apc.Sma.Heap.Tiles.{Tile, free}
use pecl_caching_apc.Sma.Heap.Allocate.{IsHeap}

-- One free block.
abbrev pub all_free : (first segsize : ℕ) → List Tile
all_free first segsize = free (free_size first segsize) ∷ []

module _ (first segsize : ℕ) (m : Blocks) (room : first + 160 ≤ segsize)
    (word : segsize < word_mod) where
  pub init_segment-IsHeap :
      IsHeap (init_segment first segsize m) (all_free first segsize) ((first + block_size) ∷ [])
  unfolding init_segment write
  init_segment-IsHeap = rw (init_segment-sizes first segsize m (omega arith) word) record {
    tiled = record {
      run = (ground (arith), ground (arith), omega arith, refl, ground (arith));
      last_size = ground (arith);
      links = (
        ground (arith),
        ground (arith),
        omega arith,
        (ground (arith), ground (arith), omega arith, ground (arith)),
      );
      lists = λ q. ground (arith);
      as_many = refl;
      unlinked = λ q i. absurd (omega (arith, i));
      checks = λ q i. ground (arith, i);
    };
    counts = omega arith;
    room = omega arith;
    word = omega arith;
  }
