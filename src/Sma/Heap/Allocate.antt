-- ===== src/Sma/Heap/Allocate.antt =====
-- `sma_allocate` in a segment whose memory is tiled.
use pecl_caching_apc.Base.{
  ℕ, ◌+◌, ◌-◌, ◌≤◌, ◌<◌, ◌≡◌, List, [], ◌∷◌, ◌++◌, arith, refl, word_mod, sub64,
}
use pecl_caching_apc.Sma.{
  Segment, Allocation, fails, allocates, real_size, block_size, unlink, split,
}
use pecl_caching_apc.Sma.Fit.{real_size-bounds, unlink-size, split-size}
use pecl_caching_apc.Sma.Heap.Links.{occurs}
use pecl_caching_apc.Sma.Heap.Fields.{sizes, previouses, handed_out, handed_out-sizes}
use pecl_caching_apc.Sma.Heap.Tiles.{
  Tile, free, used, end, frees, useds, free_bytes, free_bytes-append, free_bytes-≤, occurs-frees,
}
use pecl_caching_apc.Sma.Heap.Runs.{blocks_at-once}
use pecl_caching_apc.Sma.Heap.Tiled.{start, sentinel, IsTiled}
use pecl_caching_apc.Sma.Heap.Take.{block_size_of, taken, IsTiled-taken, taken_useds, same_end}
use pecl_caching_apc.Sma.Heap.Cut
use pecl_caching_apc.Sma.Heap.Cut.{cut, IsTiled-cut, cut_useds}

-- A segment with its blocks and its free list: `avail` counts the free blocks and 40 bytes more,
-- and the segment, a word long, has room for the sentinel.
pub record IsHeap (seg : Segment) (ts : List Tile) (fl : List ℕ) : Type 0 where
  pub tiled : IsTiled seg.blocks seg.first ts fl
  pub counts : seg.avail ≡ free_bytes ts + block_size
  pub room : sentinel seg.first ts + block_size ≤ seg.segsize
  pub word : seg.segsize < word_mod

-- The outcome of an allocation of `size` bytes: it fails, and no free block is large enough, or a
-- free block becomes a used one that holds the bytes, and no
-- other block is used or unused for it.
pub data Allocated (seg : Segment) (ts : List Tile) (size : ℕ) : Allocation → Type 0 where
  no_room :
      ((q : ℕ) → 0 < occurs q (frees (start seg.first) ts) → sizes seg.blocks q < real_size size)
      → Allocated seg ts size fails
  handed :
      (cur n : ℕ) (seg' : Segment) (ts' : List Tile) (fl' : List ℕ)
      → IsHeap seg' ts' fl'
      → seg'.first ≡ seg.first
      → sentinel seg'.first ts' ≡ sentinel seg.first ts
      → occurs cur (frees (start seg.first) ts) ≡ 1
      → ((q : ℕ)
          → occurs q (useds (start seg.first) ts')
            ≡ occurs q (useds (start seg.first) ts) + occurs q (cur ∷ []))
      → size ≤ n
      → sizes seg'.blocks cur ≡ n + block_size
      → Allocated seg ts size (allocates (cur + block_size) n seg')

pub IsHeap-word :
    {seg : Segment} (ts : List Tile) {fl : List ℕ}
    → IsHeap seg ts fl
    → free_bytes ts + 80 < word_mod
IsHeap-word {seg} ts h = omega (arith, free_bytes-≤ (start seg.first) ts, h.room, h.word)

-- A free block is one once.
free_once :
    (seg : Segment) (us : List Tile) (n : ℕ) (vs : List Tile) (fl : List ℕ)
    → IsTiled seg.blocks seg.first (us ++ free n ∷ vs) fl
    → occurs (end (start seg.first) us) (frees (start seg.first) (us ++ free n ∷ vs)) ≡ 1
free_once seg us n vs fl t =
    let p = end (start seg.first) us in
    ground (
      arith,
      blocks_at-once _ _ p (start seg.first) 0 (us ++ free n ∷ vs) t.run,
      occurs-frees p (start seg.first) us (free n ∷ vs),
    )

-- The segment once the block has been taken whole, or cut.
abbrev pub whole : Segment → (cur : ℕ) → Segment
whole seg cur = record seg {
  avail = sub64 seg.avail (unlink (previouses seg.blocks cur) cur seg.blocks cur).size;
  blocks = handed_out cur (unlink (previouses seg.blocks cur) cur seg.blocks);
}

abbrev pub parted : Segment → (cur r : ℕ) → Segment
parted seg cur r = record seg {
  avail = sub64 seg.avail (split cur r seg.blocks cur).size;
  blocks = handed_out cur (split cur r seg.blocks);
}

-- The block is taken whole.
module _ (size : ℕ) (seg : Segment) (us : List Tile) (n : ℕ) (vs : List Tile) (xs ys : List ℕ)
    (h : IsHeap seg (us ++ free n ∷ vs) (xs ++ end (start seg.first) us ∷ ys))
    (word : size + 56 < word_mod) (fit : real_size size ≤ n) where
  pub whole_size : sizes seg.blocks (end (start seg.first) us) ≡ n
  whole_size = block_size_of us n vs xs ys h.tiled

  whole-IsHeap : IsHeap (whole seg (end (start seg.first) us)) (us ++ used n ∷ vs) (xs ++ ys)
  unfolding taken
  whole-IsHeap = record {
    tiled = IsTiled-taken us n vs xs ys h.tiled;
    counts = omega (
      arith,
      whole_size,
      unlink-size (previouses seg.blocks (end (start seg.first) us)) (end (start seg.first) us)
          seg.blocks,
      free_bytes-append us (used n ∷ vs),
      free_bytes-append us (free n ∷ vs),
      h.counts,
      IsHeap-word _ h,
    );
    room = omega (arith, h.room, same_end us n vs xs ys h.tiled);
    word = h.word;
  }

  pub whole-Allocated : Allocated seg (us ++ free n ∷ vs) size (
      allocates
        (end (start seg.first) us + block_size)
        (sizes seg.blocks (end (start seg.first) us) - block_size)
        (whole seg (end (start seg.first) us)))
  whole-Allocated =
      handed _ _ _ _ _ whole-IsHeap refl (same_end us n vs xs ys h.tiled)
        (free_once seg us n vs _ h.tiled) (λ q. taken_useds us n vs xs ys h.tiled q)
        (omega (arith, whole_size, fit, real_size-bounds size word))
        (omega (
          arith,
          whole_size,
          fit,
          real_size-bounds size word,
          handed_out-sizes (end (start seg.first) us)
              (unlink (previouses seg.blocks (end (start seg.first) us)) (end (start seg.first) us)
                seg.blocks)
              (end (start seg.first) us),
          unlink-size (previouses seg.blocks (end (start seg.first) us)) (end (start seg.first) us)
              seg.blocks,
        ))

-- The block is cut.
module _ (size : ℕ) (seg : Segment) (us : List Tile) (r rest : ℕ) (vs : List Tile) (xs ys : List ℕ)
    (h : IsHeap seg (us ++ free (r + rest) ∷ vs) (xs ++ end (start seg.first) us ∷ ys))
    (word : size + 56 < word_mod) (fit : r ≡ real_size size) (left : 40 ≤ rest) where
  holds : size + block_size ≤ r
  holds = omega (arith, fit, real_size-bounds size word)

  parted_size : (split (end (start seg.first) us) r seg.blocks (end (start seg.first) us)).size ≡ r
  parted_size = split-size (end (start seg.first) us) r seg.blocks (omega (arith, holds))

  pub parted-IsHeap :
      IsHeap
        (parted seg (end (start seg.first) us) r)
        (us ++ used r ∷ free rest ∷ vs)
        (xs ++ (end (start seg.first) us + r) ∷ ys)
  unfolding cut
  parted-IsHeap = record {
    tiled = IsTiled-cut us r rest vs xs ys h.tiled (omega (arith, holds)) left;
    counts = omega (
      arith,
      parted_size,
      free_bytes-append us (used r ∷ free rest ∷ vs),
      free_bytes-append us (free (r + rest) ∷ vs),
      h.counts,
      IsHeap-word _ h,
    );
    room =
        omega (arith, h.room, Cut.same_end us r rest vs xs ys h.tiled (omega (arith, holds)) left);
    word = h.word;
  }

  pub parted-Allocated : Allocated seg (us ++ free (r + rest) ∷ vs) size (
      allocates
        (end (start seg.first) us + block_size)
        (r - block_size)
        (parted seg (end (start seg.first) us) r))
  parted-Allocated =
      handed _ _ _ _ _ parted-IsHeap refl
        (Cut.same_end us r rest vs xs ys h.tiled (omega (arith, holds)) left)
        (free_once seg us (r + rest) vs _ h.tiled)
        (λ q. cut_useds us r rest vs xs ys h.tiled (omega (arith, holds)) left q)
        (omega (arith, holds))
        (omega (
          arith,
          holds,
          parted_size,
          handed_out-sizes (end (start seg.first) us)
              (split (end (start seg.first) us) r seg.blocks) (end (start seg.first) us),
        ))
