-- ===== src/Sma/Deallocate.antt =====
-- apc_sma.c: `sma_deallocate`.
use pecl_caching_apc.Base.{ℕ, ◌+◌, ◌-◌, Option, none, some, ◌==◌, if◌then◌else◌, add64, sub64}
use pecl_caching_apc.Sma.{
  Blocks, set_size, set_prev_size, set_fnext, set_fprev, reset_canary, block_size, Segment,
}

-- The block of a `sma_deallocate` joined with the free block before it, if there is one.
unfoldable pub join_prev : (cur : ℕ) → Blocks → ℕ × Blocks
join_prev cur m =
    let prv = cur - (m cur).prev_size in
    let m₁ = set_fprev (m prv).fnext (m prv).fprev m in
    let m₂ = set_fnext (m₁ prv).fprev (m₁ prv).fnext m₁ in
    let m₃ = set_size prv ((m₂ prv).size + (m₂ cur).size) m₂ in
    if (m cur).prev_size == 0 then (cur, m) else (prv, reset_canary cur m₃)

-- Joined with the free block behind it, if there is one; none is an assertion that fails.
unfoldable pub join_next : (cur : ℕ) → Blocks → Option Blocks
join_next cur m =
    let nxt = cur + (m cur).size in
    let m₁ = set_fprev (m nxt).fnext (m nxt).fprev m in
    let m₂ = set_fnext (m₁ nxt).fprev (m₁ nxt).fnext m₁ in
    let m₃ = set_size cur ((m₂ cur).size + (m₂ nxt).size) m₂ in
    if (m nxt).fnext == 0
    then some m
    else (if (m (nxt + (m nxt).size)).prev_size == (m nxt).size
        then some (reset_canary nxt m₃)
        else none)

-- The block is put in front of the free list.
unfoldable pub put_first : (first cur : ℕ) → Blocks → Blocks
put_first first cur m =
    let m₁ = set_prev_size (cur + (m cur).size) (m cur).size m in
    let m₂ = set_fnext cur (m₁ first).fnext m₁ in
    let m₃ = set_fnext first cur m₂ in
    let m₄ = set_fprev cur first m₃ in set_fprev (m₄ cur).fnext cur m₄

-- The result of `sma_deallocate`, once the block has been joined with its neighbours.
abbrev pub put_back : (cur size : ℕ) → Segment → Option Blocks → Option (ℕ × Segment)
put_back cur size seg none = none
put_back cur size seg (some m) =
    some (size, record seg { avail = add64 seg.avail size; blocks = put_first seg.first cur m })

-- `sma_deallocate`: the size of the freed block and the segment.
unfoldable pub deallocate : (offset : ℕ) → Segment → Option (ℕ × Segment)
deallocate offset seg =
    let cur = sub64 offset block_size in
    let prev = join_prev cur seg.blocks in
    put_back (prev.0) (seg.blocks cur).size seg (join_next (prev.0) (prev.1))
