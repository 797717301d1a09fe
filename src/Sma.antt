-- ===== src/Sma.antt =====
-- apc_sma.c: the allocator of one shared memory segment. The block headers lie in memory by their
-- offset; what the blocks hold is the clients'. This is the 64-bit build, with canaries.
pub mod Deallocate
pub mod Layout
pub mod Fit
pub mod Heap
pub mod Segments
pub mod Exhaustion
pub mod Protect
pub mod Start
pub mod Info
mod Tests
use pecl_caching_apc.Base.{
  ℕ, zero, suc, ◌+◌, ◌-◌, Bool, true, false, not, ◌&&◌, ◌||◌, Option, none, some, ◌==◌, ltb, leb,
  if◌then◌else◌, add64, sub64, align_word,
}

-- `block_t`
pub record Block : Type 0 where
  pub size : ℕ
  pub prev_size : ℕ
  pub fnext : ℕ
  pub fprev : ℕ
  pub canary : ℕ

-- `BLOCKAT`
abbrev pub Blocks : Type 0
Blocks = ℕ → Block

unfoldable pub write : Blocks → ℕ → Block → Blocks
write m p b q = if q == p then b else m q

unfoldable pub set_size : ℕ → ℕ → Blocks → Blocks
set_size p n m = write m p (let b = m p in record b { size = n })

unfoldable pub set_prev_size : ℕ → ℕ → Blocks → Blocks
set_prev_size p n m = write m p (let b = m p in record b { prev_size = n })

unfoldable pub set_fnext : ℕ → ℕ → Blocks → Blocks
set_fnext p n m = write m p (let b = m p in record b { fnext = n })

unfoldable pub set_fprev : ℕ → ℕ → Blocks → Blocks
set_fprev p n m = write m p (let b = m p in record b { fprev = n })

abbrev pub canary_value : ℕ
canary_value = 0x42424242

-- `SET_CANARY`, `RESET_CANARY` (which writes -42 as a `size_t`) and `CHECK_CANARY`
unfoldable pub set_canary : ℕ → Blocks → Blocks
set_canary p m = write m p (let b = m p in record b { canary = canary_value })

unfoldable pub reset_canary : ℕ → Blocks → Blocks
reset_canary p m = write m p (let b = m p in record b { canary = sub64 0 42 })

unfoldable pub check_canary : ℕ → Blocks → Bool
check_canary p m = (m p).canary == canary_value

-- `ALIGNWORD(sizeof(block_t))`: five words.
abbrev pub block_size : ℕ
block_size = 40

-- `MINBLOCKSIZE`
abbrev pub min_block_size : ℕ
min_block_size = 48

-- A segment: `sma_header_t`, whose aligned size is `first`, with its blocks.
pub record Segment : Type 0 where
  pub first : ℕ
  pub segsize : ℕ
  pub avail : ℕ
  pub blocks : Blocks

-- The result of an allocation; `aborts` is a failed assertion.
pub data Allocation : Type 0 where
  fails : Allocation
  aborts : Allocation
  allocates : (offset allocated : ℕ) → Segment → Allocation

-- The loop of `sma_allocate`: the block before the first free block that is large enough. Each
-- round goes to another block, so a segment has fuel for all.
unfoldable pub search_fit : (fuel : ℕ) → (realsize : ℕ) → Blocks → (prv : ℕ) → Option ℕ
search_fit zero realsize m prv = none
search_fit (suc fuel) realsize m prv =
    let cur = (m prv).fnext in
    let rest = search_fit fuel realsize m cur in
    if cur == 0 then none else (if leb realsize (m cur).size then some prv else rest)

-- The block is taken whole: it is unlinked.
unfoldable pub unlink : (prv cur : ℕ) → Blocks → Blocks
unlink prv cur m =
    let m₁ = set_fnext prv (m cur).fnext m in
    let m₂ = set_fprev (m₁ cur).fnext prv m₁ in set_prev_size (cur + (m₂ cur).size) 0 m₂

-- The block is cut: the part behind `realsize` takes its place in the free list.
unfoldable pub split : (cur realsize : ℕ) → Blocks → Blocks
split cur realsize m =
    let oldsize = (m cur).size in
    let m₁ = set_size cur realsize m in
    let nxt = cur + realsize in
    let m₂ = set_size nxt (oldsize - realsize) (set_prev_size nxt 0 m₁) in
    let m₃ = set_prev_size (nxt + (m₂ nxt).size) (m₂ nxt).size m₂ in
    let m₄ = set_canary nxt m₃ in
    let m₅ = set_fnext nxt (m₄ cur).fnext m₄ in
    let m₆ = set_fprev nxt (m₅ cur).fprev m₅ in
    let m₇ = set_fprev (m₆ nxt).fnext nxt m₆ in set_fnext (m₇ nxt).fprev nxt m₇

-- The test of `sma_allocate`: the block is too small to split.
abbrev pub fits_whole : (size realsize fragment : ℕ) → Bool
fits_whole size realsize fragment =
    size == realsize || (ltb realsize size && ltb size (realsize + (min_block_size + fragment)))

-- What follows the search.
unfoldable pub take_block : (realsize fragment prv : ℕ) → Segment → Allocation
take_block realsize fragment prv seg =
    let m = seg.blocks in
    let cur = (m prv).fnext in
    let m' =
      if fits_whole (m cur).size realsize fragment
      then unlink prv cur m
      else split cur realsize m in
    let size = if fits_whole (m cur).size realsize fragment then (m cur).size else realsize in
    if check_canary prv m && check_canary cur m
    then allocates (cur + block_size) (size - block_size) (record seg {
      avail = sub64 seg.avail (m' cur).size;
      blocks = set_canary cur (set_fnext cur 0 m');
    })
    else aborts

-- The size of the block for `size` bytes, its header included.
unfoldable pub real_size : ℕ → ℕ
real_size size = align_word (add64 size block_size)

-- `sma_allocate`
unfoldable pub allocate : (size fragment : ℕ) → Segment → Allocation
allocate size fragment seg =
    let realsize = real_size size in
    if ltb seg.avail realsize
    then fails
    else (if check_canary seg.first seg.blocks
        then (elim (search_fit seg.segsize realsize seg.blocks seg.first) [
          | none ↦ fails
          | some prv ↦ take_block realsize fragment prv seg
        ])
        else aborts)
