-- ===== src/Pool/Alloc.antt =====
-- apc_pool.c: `apc_realpool_alloc`.
use pecl_caching_apc.Base.{
  ℕ, zero, suc, ◌+◌, ◌&&◌, Option, none, some, List, [], ◌∷◌, ltb, leb, if◌then◌else◌, add64, sub64,
  align_size,
}
use pecl_caching_apc.Pool.{
  PoolBlock, Pool, World, Malloc, mark_redzone, write_word, create_pool_block, red_size, taken_size,
}

-- `realsize` bytes of a block are used.
abbrev pub carve : (realsize : ℕ) → PoolBlock → PoolBlock
carve realsize b = record b { avail = sub64 b.avail realsize; mark = b.mark + realsize }

abbrev pub skip_block : PoolBlock → Option (ℕ × List PoolBlock) → Option (ℕ × List PoolBlock)
skip_block b none = none
skip_block b (some r) = some (r.0, b ∷ r.1)

-- The search of `apc_realpool_alloc` looks at `look` blocks: the mark of the first with room, and
-- the blocks with it carved.
unfoldable pub carve_first : (look realsize : ℕ) → List PoolBlock → Option (ℕ × List PoolBlock)
carve_first zero realsize blocks = none
carve_first (suc look) realsize [] = none
carve_first (suc look) realsize (b ∷ blocks) =
    let rest = carve_first look realsize blocks in
    if leb realsize b.avail then some (b.mark, carve realsize b ∷ blocks) else skip_block b rest

-- The larger blocks of a pool that has several.
unfoldable pub upgrade : Pool → Pool
upgrade pool =
    if ltb 4 pool.count && ltb pool.dsize 4096
    then record pool { dsize = 4096 }
    else (if ltb 8 pool.count && ltb pool.dsize 8192 then record pool { dsize = 8192 } else pool)

-- What follows `found`: the marks of the debug build, and the pool that has given the bytes.
unfoldable pub hand_out :
    {S : Type 0} → (size mark : ℕ) → List PoolBlock → Pool → World S → Option ℕ × Pool × World S
hand_out size mark blocks pool w =
    let p = if pool.sizeinfo then mark + 8 else mark in
    let m = if pool.sizeinfo then write_word mark size w.bytes else w.bytes in
    (
      some p,
      record pool { blocks = blocks; used = add64 pool.used (taken_size pool size) },
      record w {
        bytes = if pool.redzones then mark_redzone (p + size) (red_size pool size) m else m;
      },
    )

-- The new block of an allocation is carved at once.
abbrev pub hand_out_head :
    {S : Type 0} → (size : ℕ) → List PoolBlock → Pool → World S → Option ℕ × Pool × World S
hand_out_head size [] pool w = (none, pool, w)
hand_out_head size (b ∷ blocks) pool w =
    hand_out size b.mark (carve (taken_size pool size) b ∷ blocks) pool w

-- What follows the attempt to create a block.
abbrev pub after_create :
    {S : Type 0} → (size : ℕ) → Pool → World S → Option Pool × S → Option ℕ × Pool × World S
after_create size larger w (none, s) = (none, larger, record w { state = s })
after_create size larger w (some grown, s) =
    hand_out_head size grown.blocks grown (record w { state = s })

-- What follows the search.
abbrev pub after_search :
    {S : Type 0}
    → Malloc S
    → (size : ℕ) → Pool
    → World S
    → Option (ℕ × List PoolBlock)
    → Option ℕ × Pool × World S
after_search malloc size pool w (some (mark, blocks)) = hand_out size mark blocks pool w
after_search malloc size pool w none =
    let larger = upgrade pool in
    let poolsize = align_size (taken_size pool size) larger.dsize in
    after_create size larger w (create_pool_block malloc poolsize larger w.state)

-- `apc_realpool_alloc`
unfoldable pub alloc :
    {S : Type 0} → Malloc S → (size : ℕ) → Pool → World S → Option ℕ × Pool × World S
alloc malloc size pool w =
    after_search malloc size pool w (carve_first 8 (taken_size pool size) pool.blocks)
