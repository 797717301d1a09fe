-- ===== src/Sma/Heap/Safety.antt =====
-- What clients may rely on, whatever they have allocated and freed before.
use pecl_caching_apc.Base.{
  ◌&&◌, leb, ℕ, ◌+◌, ◌≤◌, ◌<◌, ◌≡◌, ◌≢◌, ◌⊎◌, List, [], ◌∷◌, Option, none, arith, ◌==◌, subst,
  word_mod, Bool, true, false,
}
use pecl_caching_apc.Sma.{
  Blocks, Segment, Allocation, fails, aborts, allocates, allocate, real_size, block_size,
}
use pecl_caching_apc.Sma.Deallocate.{deallocate}
use pecl_caching_apc.Sma.Start.{free_size}
use pecl_caching_apc.Sma.Heap.Links.{occurs}
use pecl_caching_apc.Sma.Heap.Fields.{sizes, prev_sizes}
use pecl_caching_apc.Sma.Heap.Tiles.{Tile, free, used, end, end-≤, useds}
use pecl_caching_apc.Sma.Heap.Runs.{Run}
use pecl_caching_apc.Sma.Heap.Tiled.{start}
use pecl_caching_apc.Sma.Heap.Allocate.{Allocated, no_room, handed}
use pecl_caching_apc.Sma.Heap.Serve.{allocate-Allocated}
use pecl_caching_apc.Sma.Heap.GiveBack.{Deallocated, released, deallocate-Deallocated}
use pecl_caching_apc.Sma.Heap.Histories.{Reached, kept, Reached-Kept, last_block}

-- A used block lies in its run.
useds-inside :
    (sz ps : ℕ → ℕ) (p k c : ℕ) (ts : List Tile)
    → Run sz ps p k ts
    → 0 < occurs c (useds p ts)
    → (p ≤ c) × (c + sz c ≤ end p ts)
useds-inside sz ps p k c [] r i = absurd (omega arith)
useds-inside sz ps p k c (free n ∷ ts) (_, _, _, _, r) i =
    omega (arith, useds-inside sz ps (p + n) n c ts r i)
useds-inside sz ps p k c (used n ∷ ts) (_, size, _, _, r) i =
    ground (arith, size, useds-inside sz ps (p + n) 0 c ts r, end-≤ (p + n) ts)

-- Two used blocks do not overlap.
useds-apart :
    (sz ps : ℕ → ℕ) (p k c d : ℕ) (ts : List Tile)
    → Run sz ps p k ts
    → 0 < occurs c (useds p ts)
    → 0 < occurs d (useds p ts)
    → c ≢ d
    → (c + sz c ≤ d) ⊎ (d + sz d ≤ c)
useds-apart sz ps p k c d [] r i j other = absurd (omega arith)
useds-apart sz ps p k c d (free n ∷ ts) (_, _, _, _, r) i j other =
    useds-apart sz ps (p + n) n c d ts r i j other
useds-apart sz ps p k c d (used n ∷ ts) (_, size, _, _, r) i j other = ground (
  arith,
  size,
  useds-inside sz ps (p + n) 0 c ts r,
  useds-inside sz ps (p + n) 0 d ts r,
  useds-apart sz ps (p + n) 0 c d ts r,
)

data OneFree (p l : ℕ) : List Tile → Type 0 where
  one_free : (n : ℕ) → p + n ≡ l → OneFree p l (free n ∷ [])

Run-OneFree :
    (sz ps : ℕ → ℕ) (p l : ℕ) (ts : List Tile)
    → Run sz ps p 0 ts
    → ((q : ℕ) → occurs q (useds p ts) ≡ 0)
    → end p ts ≡ l
    → p < l
    → OneFree p l ts
Run-OneFree sz ps p l [] r none_used e h = absurd (omega arith)
Run-OneFree sz ps p l (used n ∷ ts) r none_used e h = absurd (ground (arith, none_used p))
Run-OneFree sz ps p l (free n ∷ []) r none_used e h = one_free n e
Run-OneFree sz ps p l (free n ∷ free n' ∷ ts) (_, _, large, _, (_, _, _, apart, _)) none_used e h =
    absurd (omega (arith, large, apart))
Run-OneFree sz ps p l (free n ∷ used n' ∷ ts) r none_used e h =
    absurd (ground (arith, none_used (p + n)))

-- What an allocation returns.
abbrev pub serves : (size offset : ℕ) → Allocation → Bool
serves size offset fails = false
serves size offset aborts = false
serves size offset (allocates off n seg) = (off == offset) && leb size n

Allocated-ends :
    {seg : Segment} {ts : List Tile} {size : ℕ} {a : Allocation}
    → Allocated seg ts size a
    → a ≢ aborts
Allocated-ends (no_room _) = λ e. absurd (cc)
Allocated-ends (handed _ _ _ _ _ _ _ _ _ _ _ _) = λ e. absurd (cc)

Deallocated-ends :
    {seg : Segment} {ts : List Tile} {c : ℕ} {o : Option (ℕ × Segment)}
    → Deallocated seg ts c o
    → o ≢ none
Deallocated-ends (released _ _ _ _ _ _ _ _) = λ e. absurd (cc)

-- In a segment with one free block, an allocation that fits is served with its address.
served :
    (seg : Segment) (size l : ℕ) (ts : List Tile) (a : Allocation)
    → OneFree (start seg.first) l ts
    → Run (sizes seg.blocks) (prev_sizes seg.blocks) (start seg.first) 0 ts
    → real_size size + start seg.first ≤ l
    → Allocated seg ts size a
    → serves size (start seg.first + block_size) a ≡ true
served seg size l _ _ (one_free n e) (_, whole, _, _, _) fit (no_room small) =
    absurd (omega (arith, small (start seg.first) (ground (arith)), whole, e))
served seg size l _ _ (one_free n e) (_, whole, _, _, _) fit
      (handed cur n' _ _ _ _ _ _ once _ large _) =
    ground (arith, once, large)

module _ (first segsize : ℕ) (m : Blocks) (room : first + 160 ≤ segsize)
    (word : segsize < word_mod) where
  -- Whatever has been allocated and freed before, in any order, the segment's checks hold: an
  -- allocation comes to no failed assertion, nor does a free of a block that is held. The segment
  -- is a word long and has had room for its blocks at the start, a request is a word with its
  -- header and padding, and only blocks that are held have been freed.
  pub Reached-runs :
      (size fragment : ℕ) (seg : Segment) (live : List ℕ)
      → Reached first segsize m seg live
      → size + 56 < word_mod
      → (allocate size fragment seg ≢ aborts)
        × ((c : ℕ) → 0 < occurs c live → deallocate (c + block_size) seg ≢ none)
  Reached-runs size fragment seg live r h = elim (Reached-Kept first segsize m room word r) [
    | kept ts fl heap f l uses ↦ (
      Allocated-ends (allocate-Allocated size fragment seg h ts fl heap),
      λ c i. Deallocated-ends (deallocate-Deallocated seg ts fl c heap (omega (arith, uses c, i))),
    )
  ]

  -- Any two blocks that are held at a time do not overlap, and lie behind the list head and before
  -- the sentinel. The segment is a word long and has had room for its blocks at the start, and only
  -- blocks that are held have been freed.
  pub Reached-disjoint :
      (seg : Segment) (live : List ℕ) (c d : ℕ)
      → Reached first segsize m seg live
      → 0 < occurs c live
      → 0 < occurs d live
      → c ≢ d
      → ((c + sizes seg.blocks c ≤ d) ⊎ (d + sizes seg.blocks d ≤ c))
        × (first + block_size ≤ c)
        × (c + sizes seg.blocks c + 80 ≤ segsize)
  Reached-disjoint seg live c d r i j other = elim (Reached-Kept first segsize m room word r) [
    | kept ts fl heap f l uses ↦
        let i' : 0 < occurs c (useds (start seg.first) ts) = omega (arith, uses c, i) in
        let j' : 0 < occurs d (useds (start seg.first) ts) = omega (arith, uses d, j) in
        let inside = useds-inside _ _ (start seg.first) 0 c ts heap.tiled.run i' in
        (
          useds-apart _ _ (start seg.first) 0 c d ts heap.tiled.run i' j' other,
          omega (arith, inside, f),
          omega (arith, inside, l),
        )
  ]

  -- Once all blocks have been freed, in any order, the memory is one free block again: a request
  -- is served with the first address if it fits in an empty segment with its header. The segment is
  -- a word long and has had room for its blocks at the start, the request is a word with its header
  -- and padding, and only blocks that were held have been freed.
  pub Reached-serves :
      (size fragment : ℕ) (seg : Segment)
      → Reached first segsize m seg []
      → size + 56 < word_mod
      → real_size size ≤ free_size first segsize
      → serves size (first + 80) (allocate size fragment seg) ≡ true
  Reached-serves size fragment seg r h fit = elim (Reached-Kept first segsize m room word r) [
    | kept ts fl heap f l uses ↦
        let begins : start seg.first + block_size ≡ first + 80 = omega (arith, f) in
        subst (λ p. serves size p (allocate size fragment seg) ≡ true) begins
          (served seg size (last_block first segsize) ts _
            (Run-OneFree _ _ (start seg.first) _ ts heap.tiled.run uses l
              (omega (arith, f, fit, room)))
            heap.tiled.run (omega (arith, f, fit))
            (allocate-Allocated size fragment seg h ts fl heap))
  ]
