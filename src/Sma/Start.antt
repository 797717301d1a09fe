-- ===== src/Sma/Start.antt =====
-- The segment that `apc_sma_init` writes.
use pecl_caching_apc.Base.{
  ℕ, ◌+◌, ◌-◌, ◌≤◌, ◌<◌, ◌≡◌, refl, true, false, List, [], ◌∷◌, none, some, arith, leb, sub64,
  word_mod, inr, subst, sym, ap, ◌∙◌, if◌then◌else◌,
}
use pecl_caching_apc.Sma.{
  Blocks, Segment, fails, allocate, real_size, block_size, write, check_canary, canary_value,
}
use pecl_caching_apc.Sma.Layout.{init_segment}
use pecl_caching_apc.Sma.Fit.{FreeList, before_fit, allocate-fails}

-- The size of the one free block of a segment: what the header, the three blocks and a gap of
-- the size of a block header leave.
abbrev pub free_size : (first segsize : ℕ) → ℕ
free_size first segsize = segsize - (first + 120)

-- What the writes leave at the three blocks.
record Fresh (first size : ℕ) (seg : Segment) : Type 0 where
  starts : seg.first ≡ first
  long : 2 < seg.segsize
  counts : seg.avail ≡ size + block_size
  head_next : (seg.blocks first).fnext ≡ first + block_size
  head_canary : (seg.blocks first).canary ≡ canary_value
  middle_next : (seg.blocks (first + block_size)).fnext ≡ first + block_size + size
  middle_size : (seg.blocks (first + block_size)).size ≡ size
  middle_canary : (seg.blocks (first + block_size)).canary ≡ canary_value
  last_next : (seg.blocks (first + block_size + size)).fnext ≡ 0
  last_size : (seg.blocks (first + block_size + size)).size ≡ 0

leb-true : (a b : ℕ) → a ≤ b → leb a b ≡ true
leb-true a b h = ground (arith)

leb-false : (a b : ℕ) → b < a → leb a b ≡ false
leb-false a b h = ground (arith)

-- The free list: the one free block, then the sentinel.
abbrev pub free_blocks : (first size : ℕ) → List ℕ
free_blocks first size = (first + block_size) ∷ (first + block_size + size) ∷ []

module _ {first size : ℕ} {seg : Segment} (fresh : Fresh first size seg) where
  Fresh-FreeList : FreeList seg.blocks seg.first (free_blocks first size)
  unfolding FreeList
  Fresh-FreeList =
      subst (λ p. FreeList seg.blocks p (free_blocks first size)) (sym fresh.starts)
        (fresh.head_next, omega arith, (fresh.middle_next, omega arith, fresh.last_next))

  Fresh-fit :
      (realsize : ℕ)
      → 0 < realsize
      → before_fit realsize seg.blocks seg.first (free_blocks first size)
        ≡ (if leb realsize size then some seg.first else none)
  Fresh-fit realsize h = rw (fresh.middle_size, fresh.last_size) (ground (arith))

  middle_at : (seg.blocks seg.first).fnext ≡ first + block_size
  middle_at = ap (λ p. (seg.blocks p).fnext) fresh.starts ∙ fresh.head_next

  has_canary : (p : ℕ) → (seg.blocks p).canary ≡ canary_value → check_canary p seg.blocks ≡ true
  unfolding check_canary
  has_canary p e = ground (arith)

  head_checks : check_canary seg.first seg.blocks ≡ true
  head_checks =
      has_canary seg.first (ap (λ p. (seg.blocks p).canary) fresh.starts ∙ fresh.head_canary)

  Fresh-fails :
      (fragment request : ℕ) → size < real_size request → allocate request fragment seg ≡ fails
  Fresh-fails fragment request few =
      allocate-fails request fragment seg (free_blocks first size) Fresh-FreeList fresh.long
        head_checks
        (inr (
          Fresh-fit (real_size request) (omega arith)
          ∙ ap (λ b. if b then some seg.first else none) (leb-false (real_size request) size few)))

module _ (first segsize : ℕ) (m : Blocks) (room : first + 120 < segsize)
    (word : segsize < word_mod) where
  pub init_segment-sizes :
      sub64 (sub64 (sub64 (sub64 segsize first) block_size) block_size) block_size
      ≡ free_size first segsize
  init_segment-sizes = omega arith

  init_segment-Fresh : Fresh first (free_size first segsize) (init_segment first segsize m)
  unfolding init_segment write
  init_segment-Fresh = rw init_segment-sizes record {
    starts = refl;
    long = omega arith;
    counts = omega arith;
    head_next = ground (arith);
    head_canary = ground (arith);
    middle_next = ground (arith);
    middle_size = ground (arith);
    middle_canary = ground (arith);
    last_next = ground (arith);
    last_size = ground (arith);
  }

  -- In a segment of less than 2^64 bytes with room for its headers that `apc_sma_init` has set up, `avail` is 40 bytes more than the size of the one
  -- free block, and a request fails that is larger, with its header, than that block.
  pub init_segment-fails :
      (size fragment : ℕ)
      → free_size first segsize < real_size size
      → ((init_segment first segsize m).avail ≡ free_size first segsize + 40)
        × (((init_segment first segsize m).blocks (first + 40)).size ≡ free_size first segsize)
        × (allocate size fragment (init_segment first segsize m) ≡ fails)
  init_segment-fails size fragment few = (
    init_segment-Fresh.counts,
    init_segment-Fresh.middle_size,
    Fresh-fails init_segment-Fresh fragment size few,
  )
