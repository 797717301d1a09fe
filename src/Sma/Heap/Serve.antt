-- ===== src/Sma/Heap/Serve.antt =====
-- `sma_allocate` in a segment whose memory is tiled: the search, and what it does with the block.
use pecl_caching_apc.Base.{
  ℕ, ◌+◌, ◌-◌, ◌≤◌, ◌<◌, ◌≡◌, List, [], ◌∷◌, ◌++◌, Option, none, some, arith, length, length-append,
  ltb, Bool-cases, inl, inr, true, false, refl, sym, subst, ap, ◌∙◌, word_mod,
}
use pecl_caching_apc.Sma.{
  Segment, fails, allocates, take_block, allocate, real_size, block_size, fits_whole, check_canary,
}
use pecl_caching_apc.Sma.Fit.{search_fit-eq, real_size-bounds}
use pecl_caching_apc.Sma.Heap.Links.{occurs}
use pecl_caching_apc.Sma.Heap.Sentinel.{with_end, previous-inner}
use pecl_caching_apc.Sma.Heap.Fields.{sizes, nexts, previouses}
use pecl_caching_apc.Sma.Heap.Tiles.{Tile, free, At, at, end, frees, frees-At, occurs-append}
use pecl_caching_apc.Sma.Heap.Tiled.{start, sentinel}
use pecl_caching_apc.Sma.Heap.Take.{block_size_of}
use pecl_caching_apc.Sma.Heap.Choose.{
  Chosen, all_small, one_large, before_fit-Chosen, Linked-FreeList, Run-length, free-≤,
}
use pecl_caching_apc.Sma.Heap.Allocate.{
  IsHeap, Allocated, no_room, whole-Allocated, parted, parted-Allocated, whole_size,
}

module _ (size fragment : ℕ) (seg : Segment) (us : List Tile) (n : ℕ) (vs : List Tile)
    (xs ys : List ℕ) (h : IsHeap seg (us ++ free n ∷ vs) (xs ++ end (start seg.first) us ∷ ys))
    (word : size + 56 < word_mod) (fit : real_size size ≤ n) where
  abbrev cur : ℕ
  cur = end (start seg.first) us

  abbrev prv : ℕ
  prv = previouses seg.blocks cur

  cur_canary : check_canary cur seg.blocks ≡ true
  unfolding check_canary
  cur_canary = ground (arith, h.tiled.checks cur, occurs-append cur xs (cur ∷ ys))

  prv_canary : check_canary prv seg.blocks ≡ true
  unfolding check_canary
  prv_canary = ground (
    arith,
    h.tiled.checks prv,
    previous-inner _ _ seg.first cur _ xs ys h.tiled.links,
    occurs-append prv xs (cur ∷ ys),
  )

  parted_n :
      fits_whole n (real_size size) fragment ≡ false
      → (n ≡ real_size size + (n - real_size size)) × (40 ≤ n - real_size size)
  parted_n e = ground (arith)

  take_block-Allocated :
      nexts seg.blocks prv ≡ cur
      → Allocated seg (us ++ free n ∷ vs) size (take_block (real_size size) fragment prv seg)
  unfolding take_block
  take_block-Allocated next =
      rw (next, cur_canary, prv_canary)
        (elim (Bool-cases (fits_whole (sizes seg.blocks cur) (real_size size) fragment)) [
          | inl e ↦ rw e (whole-Allocated size seg us n vs xs ys h word fit)
          | inr e ↦
              let (same, left) = parted_n (rw (← whole_size size seg us n vs xs ys h word fit) e) in
              rw e (
                subst
                  (λ k.
                    IsHeap seg (us ++ free k ∷ vs) (xs ++ cur ∷ ys)
                    → Allocated seg (us ++ free k ∷ vs) size (
                        allocates (cur + block_size) (real_size size - block_size)
                          (parted seg cur (real_size size))))
                  (sym same)
                  (λ h'.
                    parted-Allocated size seg us (real_size size) (n - real_size size) vs xs ys h'
                      word refl left)
                  h)
        ])

module _ (size fragment : ℕ) (seg : Segment) (word : size + 56 < word_mod) where
  -- The block behind the one that the search has found, where it is free.
  At-free :
      (ts : List Tile) (before c : ℕ) (xs ys : List ℕ)
      → IsHeap seg ts (xs ++ c ∷ ys)
      → nexts seg.blocks before ≡ c
      → previouses seg.blocks c ≡ before
      → real_size size ≤ sizes seg.blocks c
      → At free c (start seg.first) ts
      → Allocated seg ts size (take_block (real_size size) fragment before seg)
  At-free _ before c xs ys h next previous fit (at us n vs e) =
      let h' = subst (λ c'. IsHeap seg (us ++ free n ∷ vs) (xs ++ c' ∷ ys)) (sym e) h in
      subst
        (λ p. Allocated seg (us ++ free n ∷ vs) size (take_block (real_size size) fragment p seg))
        (ap (previouses seg.blocks) e ∙ previous)
        (take_block-Allocated size fragment seg us n vs xs ys h' word
          (subst (λ k. real_size size ≤ k)
            (sym (ap (sizes seg.blocks) e) ∙ block_size_of us n vs xs ys h'.tiled) fit)
          (ap (nexts seg.blocks) (ap (previouses seg.blocks) e ∙ previous) ∙ next ∙ sym e))

  after_search :
      (ts : List Tile) (fl : List ℕ) (o : Option ℕ)
      → IsHeap seg ts fl
      → Chosen (real_size size) seg.blocks fl o
      → Allocated seg ts size
          (elim o [ none ↦ fails | some before ↦ take_block (real_size size) fragment before seg ])
  after_search ts fl o h (all_small small) =
      no_room (λ q i. small q (omega (arith, h.tiled.lists q, i)))
  after_search ts _ o h (one_large xs ys before c next previous fit) =
      At-free ts before c xs ys h next previous fit (
        frees-At c (start seg.first) ts
          (ground (arith, h.tiled.lists c, occurs-append c xs (c ∷ ys))))

  first_canary :
      (ts : List Tile) (fl : List ℕ) → IsHeap seg ts fl → check_canary seg.first seg.blocks ≡ true
  unfolding check_canary
  first_canary ts fl h = ground (arith, h.tiled.checks seg.first)

  -- `avail` is more than any free block has.
  few :
      (ts : List Tile) (fl : List ℕ)
      → IsHeap seg ts fl
      → (q : ℕ) → 0 < occurs q (frees (start seg.first) ts)
      → seg.avail < real_size size
      → sizes seg.blocks q < real_size size
  few ts fl h q i less =
      omega (arith, less, h.counts, free-≤ _ _ q (start seg.first) 0 ts h.tiled.run i)

  short :
      (ts : List Tile) (fl : List ℕ)
      → IsHeap seg ts fl
      → length (with_end fl (sentinel seg.first ts)) < seg.segsize
  short ts fl h = omega (
    arith,
    length-append fl (sentinel seg.first ts ∷ []),
    h.tiled.as_many,
    h.room,
    Run-length _ _ (start seg.first) 0 ts h.tiled.run,
  )

  -- An allocation keeps the memory of the segment in order: the blocks lie one behind the other, the
  -- free list holds each free block once and links back and forth, no two free blocks are side by
  -- side, and `avail` counts the free bytes. No assertion fails. The allocation fails only where no
  -- free block is large enough, and otherwise turns a free block into the only new used one, which
  -- holds the `size` bytes. The memory is in order before, and the request is a word with its
  -- header and padding.
  pub allocate-Allocated :
      (ts : List Tile) (fl : List ℕ)
      → IsHeap seg ts fl
      → Allocated seg ts size (allocate size fragment seg)
  unfolding allocate
  allocate-Allocated ts fl h = elim (Bool-cases (ltb seg.avail (real_size size))) [
    | inl e ↦ rw e (no_room (λ q i. few ts fl h q i (ground (arith))))
    | inr e ↦
        rw
          (
            e,
            first_canary ts fl h,
            search_fit-eq seg.segsize (real_size size) seg.blocks seg.first
                (with_end fl (sentinel seg.first ts))
                (Linked-FreeList seg.blocks seg.first _ h.tiled.links) (short ts fl h),
          )
          (after_search ts fl _ h (
            before_fit-Chosen (real_size size) seg.blocks seg.first (sentinel seg.first ts) fl
              h.tiled.links h.tiled.last_size (omega (arith, real_size-bounds size word))))
  ]
