-- ===== src/Sma/Heap/Histories.antt =====
-- Histories of a segment: it is set up, and clients allocate and free blocks, in any order.
use pecl_caching_apc.Base.{
  ℕ, ◌+◌, ◌≤◌, ◌<◌, ◌≡◌, List, [], ◌∷◌, ◌++◌, some, arith, ap, ◌∙◌, subst, refl, word_mod,
}
use pecl_caching_apc.Sma.{Blocks, Segment, allocates, allocate, block_size}
use pecl_caching_apc.Sma.Deallocate.{deallocate}
use pecl_caching_apc.Sma.Layout.{init_segment}
use pecl_caching_apc.Sma.Start.{free_size}
use pecl_caching_apc.Sma.Heap.Links.{occurs}
use pecl_caching_apc.Sma.Heap.Tiles.{Tile, useds, occurs-append}
use pecl_caching_apc.Sma.Heap.Tiled.{start, sentinel}
use pecl_caching_apc.Sma.Heap.Allocate.{IsHeap, Allocated, handed}
use pecl_caching_apc.Sma.Heap.Serve.{allocate-Allocated}
use pecl_caching_apc.Sma.Heap.GiveBack.{Deallocated, released, deallocate-Deallocated}
use pecl_caching_apc.Sma.Heap.Begin.{all_free, init_segment-IsHeap}

-- The segments that a client can come to, with the blocks that it holds. It frees only those.
pub data Reached (first segsize : ℕ) (m : Blocks) : Segment → List ℕ → Type 0 where
  initial : Reached first segsize m (init_segment first segsize m) []
  allocation :
      {seg : Segment} {live : List ℕ} (size fragment c n : ℕ) (seg' : Segment)
      → Reached first segsize m seg live
      → size + 56 < word_mod
      → allocate size fragment seg ≡ allocates (c + block_size) n seg'
      → Reached first segsize m seg' (c ∷ live)
  release :
      {seg : Segment} (xs ys : List ℕ) (c n : ℕ) (seg' : Segment)
      → Reached first segsize m seg (xs ++ c ∷ ys)
      → deallocate (c + block_size) seg ≡ some (n, seg')
      → Reached first segsize m seg' (xs ++ ys)

-- The used blocks of the segment are those that the client holds.
pub data Kept (first last : ℕ) (seg : Segment) (live : List ℕ) : Type 0 where
  kept :
      (ts : List Tile) (fl : List ℕ)
      → IsHeap seg ts fl
      → seg.first ≡ first
      → sentinel seg.first ts ≡ last
      → ((q : ℕ) → occurs q (useds (start seg.first) ts) ≡ occurs q live)
      → Kept first last seg live

module _ (first last : ℕ) where
  allocation-Kept :
      (size c off n : ℕ) (seg seg' : Segment) (ts : List Tile) (live : List ℕ)
      → seg.first ≡ first
      → sentinel seg.first ts ≡ last
      → ((q : ℕ) → occurs q (useds (start seg.first) ts) ≡ occurs q live)
      → Allocated seg ts size (allocates off n seg')
      → off ≡ c + block_size
      → Kept first last seg' (c ∷ live)
  allocation-Kept size c _ n seg seg' ts live f l uses
        (handed cur _ _ ts' fl' heap same place _ more _ _) at_c =
      kept ts' fl' heap (same ∙ f) (place ∙ l)
        (λ q. ground (arith, at_c, uses q, more q, ap (λ p. occurs q (useds (start p) ts')) same))

  release-Kept :
      (c n : ℕ) (seg seg' : Segment) (ts : List Tile) (xs ys : List ℕ)
      → seg.first ≡ first
      → sentinel seg.first ts ≡ last
      → ((q : ℕ) → occurs q (useds (start seg.first) ts) ≡ occurs q (xs ++ c ∷ ys))
      → Deallocated seg ts c (some (n, seg'))
      → Kept first last seg' (xs ++ ys)
  release-Kept c _ seg seg' ts xs ys f l uses (released _ ts' fl' heap same place _ fewer) =
      kept ts' fl' heap (same ∙ f) (place ∙ l) (λ q. ground (
        arith,
        uses q,
        fewer q,
        ap (λ p. occurs q (useds (start p) ts')) same,
        occurs-append q xs (c ∷ ys),
        occurs-append q xs ys,
      ))

-- The address of the sentinel.
abbrev pub last_block : (first segsize : ℕ) → ℕ
last_block first segsize = first + block_size + free_size first segsize

module _ (first segsize : ℕ) (m : Blocks) (room : first + 160 ≤ segsize)
    (word : segsize < word_mod) where
  init-Kept : Kept first (last_block first segsize) (init_segment first segsize m) []
  unfolding init_segment
  init-Kept =
      kept (all_free first segsize) _ (init_segment-IsHeap first segsize m room word) refl refl
        (λ q. refl)

  allocated-Kept :
      {seg : Segment} {live : List ℕ} (size fragment c n : ℕ) (seg' : Segment)
      → Kept first (last_block first segsize) seg live
      → size + 56 < word_mod
      → allocate size fragment seg ≡ allocates (c + block_size) n seg'
      → Kept first (last_block first segsize) seg' (c ∷ live)
  allocated-Kept {seg} {live} size fragment c n seg' (kept ts fl heap f l uses) h e =
      allocation-Kept first (last_block first segsize) size c _ n seg seg' ts live f l uses
        (subst (Allocated seg ts size) e (allocate-Allocated size fragment seg h ts fl heap)) refl

  after_release :
      {seg : Segment} (xs ys : List ℕ) (c n : ℕ) (seg' : Segment)
      → Kept first (last_block first segsize) seg (xs ++ c ∷ ys)
      → deallocate (c + block_size) seg ≡ some (n, seg')
      → Kept first (last_block first segsize) seg' (xs ++ ys)
  after_release {seg} xs ys c n seg' (kept ts fl heap f l uses) e =
      release-Kept first (last_block first segsize) c n seg seg' ts xs ys f l uses (
        subst (Deallocated seg ts c) e (
          deallocate-Deallocated seg ts fl c heap
            (ground (arith, uses c, occurs-append c xs (c ∷ ys)))))

  -- A segment implements a set of blocks that clients hold: after any sequence of allocations and
  -- frees of blocks that are held, its memory is in order, its used blocks are exactly those that
  -- are held, each once, and the sentinel is where it was. The segment is a word long and has had
  -- room for its blocks at the start; requests are words with header and padding.
  pub Reached-Kept :
      {seg : Segment} {live : List ℕ}
      → Reached first segsize m seg live
      → Kept first (last_block first segsize) seg live
  Reached-Kept initial = init-Kept
  Reached-Kept (allocation size fragment c n seg' r h e) =
      allocated-Kept size fragment c n seg' (Reached-Kept r) h e
  Reached-Kept (release xs ys c n seg' r e) = after_release xs ys c n seg' (Reached-Kept r) e
