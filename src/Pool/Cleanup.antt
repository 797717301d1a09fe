-- ===== src/Pool/Cleanup.antt =====
-- apc_pool.c: `apc_realpool_check_integrity` and `apc_realpool_cleanup`.
use pecl_caching_apc.Base.{
  ℕ, zero, suc, ◌+◌, Bool, true, ◌&&◌, ◌||◌, not, Option, none, some, List, [], ◌∷◌, ◌==◌, ltb,
  if◌then◌else◌, sub64,
}
use pecl_caching_apc.Pool.{
  PoolBlock, pool_block_size, Pool, Bytes, World, Free, redzone_size, check_redzone, read_word,
}

-- The first loop of `apc_realpool_check_integrity`
unfoldable pub check_marks : List PoolBlock → Bool
check_marks [] = true
check_marks (b ∷ blocks) =
    sub64 b.mark (b.addr + pool_block_size) == sub64 b.capacity b.avail && check_marks blocks

-- The allocations of one block, from `start` to its mark. Each takes 8 bytes at least, so the
-- bytes of the block are fuel enough.
unfoldable pub check_zones : (fuel start mark : ℕ) → Bytes → Bool
check_zones zero start mark m = true
check_zones (suc fuel) start mark m =
    let size = read_word start m in
    let redzone = start + 8 + size in
    let rest = check_zones fuel (start + (8 + size + redzone_size size)) mark m in
    if ltb start mark then check_redzone redzone (redzone_size size) m && rest else true

unfoldable pub check_blocks : List PoolBlock → Bytes → Bool
check_blocks [] m = true
check_blocks (b ∷ blocks) m =
    check_zones b.mark (b.addr + pool_block_size) b.mark m && check_blocks blocks m

-- `apc_realpool_check_integrity`
unfoldable pub check_integrity : Pool → Bytes → Bool
check_integrity pool m =
    check_marks pool.blocks
    && (if not pool.redzones || not pool.sizeinfo then true else check_blocks pool.blocks m)

-- The loop of `apc_realpool_cleanup`: all blocks but the last, which lies in the pool itself.
unfoldable pub free_blocks : {S : Type 0} → Free S → List PoolBlock → S → S
free_blocks free [] s = s
free_blocks free (b ∷ []) s = s
free_blocks free (b ∷ c ∷ blocks) s = free_blocks free (c ∷ blocks) (free b.addr s)

-- `apc_realpool_cleanup`; none is the assertion that fails.
unfoldable pub cleanup : {S : Type 0} → Free S → Pool → World S → Option (World S)
cleanup free pool w =
    if check_integrity pool w.bytes
    then some (record w { state = free_blocks free pool.blocks w.state })
    else none
