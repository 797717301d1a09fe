-- ===== src/Pool/Laws.antt =====
-- The invariant of `apc_realpool`, and its operations against it.
use pecl_caching_apc.Base.{
  ℕ, suc, ◌+◌, ◌%◌, ◌≤◌, ◌<◌, ◌≡◌, refl, false, ◌&&◌, Option, none, some, List, [], ◌∷◌, ◌++◌,
  arith, add64, word_mod, align_word, align_size, All, weigh, length, ap, sym, ◌∙◌, subst,
}
use pecl_caching_apc.Pool.{
  PoolBlock, Pool, World, Malloc, Free, create_pool_block, push_block, taken_size, red_size,
  init_pool_block, pool_block_size,
}
use pecl_caching_apc.Pool.Alloc.{alloc, upgrade, hand_out, after_create, after_search}
use pecl_caching_apc.Pool.Cleanup.{cleanup, check_integrity, free_blocks}
use pecl_caching_apc.Pool.Carving.{
  Fits, spent, Carved, here, Found, not_found, found, Region, Region-part, Carved-Fits,
  Carved-spent, Carved-length, Carved-Region, carve_first-Found, init_pool_block-Fits,
  check_marks-true,
}
use pecl_caching_apc.Pool.Sizes.{IsDsize, align_word-le, taken_size-bounds, align_size-bounds}

-- The blocks are in order, there is one more than `count`, and `used` counts their used bytes.
pub record IsPool (pool : Pool) : Type 0 where
  pub fits : All Fits pool.blocks
  pub counted : length pool.blocks ≡ suc pool.count
  pub used_up : pool.used ≡ weigh spent pool.blocks % word_mod
  pub sized : IsDsize pool.dsize

-- What an allocation of `size` bytes from `pool` may do: it fails and leaves the blocks, or it
-- returns the first of `size` bytes that its blocks now count as used.
pub data Served {S : Type 0} (size : ℕ) (pool : Pool) : Option ℕ × Pool × World S → Type 0 where
  refused :
      (pool' : Pool) (w' : World S)
      → IsPool pool'
      → pool'.blocks ≡ pool.blocks
      → Served size pool (none, pool', w')
  served :
      (p : ℕ) (pool' : Pool) (w' : World S)
      → IsPool pool'
      → Region p size pool'.blocks
      → pool'.used ≡ (pool.used + taken_size pool size) % word_mod
      → Served size pool (some p, pool', w')

upgrade-blocks : (pool : Pool) → (upgrade pool).blocks ≡ pool.blocks
unfolding upgrade
upgrade-blocks pool = ground (arith)

upgrade-IsPool : (pool : Pool) → IsPool pool → IsPool (upgrade pool)
unfolding upgrade
upgrade-IsPool pool v = record {
  fits = subst (All Fits) (sym (upgrade-blocks pool)) v.fits;
  counted = ground (arith, v.counted);
  used_up = ground (arith, v.used_up);
  sized = ground (arith, v.sized);
}

hand_out-Served :
    {S : Type 0} (size mark : ℕ) (blocks blocks' : List PoolBlock) (origin pool : Pool)
    (w : World S)
    → pool.used ≡ origin.used
    → taken_size pool size ≡ taken_size origin size
    → size + 32 < word_mod
    → IsPool pool
    → pool.blocks ≡ blocks
    → Carved (taken_size pool size) mark blocks blocks'
    → Served size origin (hand_out size mark blocks' pool w)
unfolding hand_out
hand_out-Served size mark blocks blocks' origin pool w u t h v e c =
    let fits = subst (All Fits) e v.fits in
    let (low, high) = taken_size-bounds pool size h in
    let sum : add64 pool.used (taken_size pool size)
        ≡ (origin.used + taken_size origin size) % word_mod =
      omega (arith, u, t) in
    let pool' : Pool = record pool {
      blocks = blocks';
      used = add64 pool.used (taken_size pool size);
    } in
    served _ pool' _
      record {
        fits = Carved-Fits c fits;
        counted = Carved-length c ∙ ap length (sym e) ∙ v.counted;
        used_up = omega (arith, v.used_up, Carved-spent c fits, ap (weigh spent) e);
        sized = v.sized;
      }
      (Region-part (Carved-Region c fits) (ground (arith)) (ground (arith, low))) sum

-- The allocator below returns memory whose addresses do not wrap.
abbrev pub InMemory : {S : Type 0} → Malloc S → Type 0
InMemory {S} malloc = (n : ℕ) (s : S) (addr : ℕ) → (malloc n s).0 ≡ some addr → addr + n < word_mod

upgrade-taken : (pool : Pool) (size : ℕ) → taken_size (upgrade pool) size ≡ taken_size pool size
unfolding upgrade taken_size red_size
upgrade-taken pool size = ground (arith)

upgrade-used : (pool : Pool) → (upgrade pool).used ≡ pool.used
unfolding upgrade
upgrade-used pool = ground (arith)

pub push_block-IsPool :
    (poolsize addr : ℕ) (pool : Pool)
    → IsPool pool
    → addr + pool_block_size + poolsize < word_mod
    → IsPool (record pool {
      blocks = init_pool_block addr poolsize ∷ pool.blocks;
      size = add64 pool.size (add64 pool_block_size (align_word poolsize));
      count = suc pool.count;
    })
unfolding init_pool_block
push_block-IsPool poolsize addr pool v h = record {
  fits = (init_pool_block-Fits addr poolsize h, v.fits);
  counted = ap suc v.counted;
  used_up = omega (arith, v.used_up);
  sized = v.sized;
}

after_create-Served :
    {S : Type 0} (size poolsize : ℕ) (origin pool : Pool) (w : World S) (got : Option ℕ × S)
    → size + 16384 < word_mod
    → IsPool pool
    → pool.blocks ≡ origin.blocks
    → pool.used ≡ origin.used
    → taken_size pool size ≡ taken_size origin size
    → taken_size pool size ≤ poolsize
    → poolsize < taken_size pool size + 8192
    → ((addr : ℕ)
        → got.0 ≡ some addr
        → addr + add64 pool_block_size (align_word poolsize) < word_mod)
    → Served size origin (after_create size pool w (push_block poolsize pool got))
unfolding init_pool_block taken_size red_size
after_create-Served size poolsize origin pool w (none, s) h v b u t low high m = refused pool _ v b
after_create-Served size poolsize origin pool w (some addr, s) h v b u t low high m =
    let small = taken_size-bounds pool size (omega arith) in
    let (up, over) = align_word-le poolsize (omega (arith, small.1)) in
    let room = m addr refl in
    hand_out-Served size (addr + pool_block_size) _ _ origin _ _ u t (omega arith)
      (push_block-IsPool poolsize addr pool v (omega (arith, small.1))) refl
      (here (init_pool_block addr poolsize) pool.blocks low refl)

after_search-Served :
    {S : Type 0} (malloc : Malloc S) (size : ℕ) (pool : Pool) (w : World S)
    (o : Option (ℕ × List PoolBlock))
    → InMemory malloc
    → size + 16384 < word_mod
    → IsPool pool
    → Found (taken_size pool size) pool.blocks o
    → Served size pool (after_search malloc size pool w o)
unfolding create_pool_block
after_search-Served malloc size pool w _ m h v (found mark blocks' c) =
    hand_out-Served size mark pool.blocks blocks' pool pool w refl refl (omega arith) v refl c
after_search-Served malloc size pool w _ m h v not_found =
    let larger = upgrade pool in
    let v' = upgrade-IsPool pool v in
    let t = upgrade-taken pool size in
    let small = taken_size-bounds pool size (omega arith) in
    let (low, high) =
      align_size-bounds (taken_size pool size) larger.dsize v'.sized (omega (arith, small.1)) in
    after_create-Served size (align_size (taken_size pool size) larger.dsize) pool larger w _ h v'
      (upgrade-blocks pool) (upgrade-used pool) t (omega (arith, t, low)) (omega (arith, t, high))
      (m _ w.state)

-- An allocation of fewer than 2^64 - 16384 bytes keeps the pool's books. It fails and leaves the
-- blocks as they are, or it returns the address of `size` bytes inside a block that count as used
-- from then on, and `used` goes up by what it takes. The allocator below returns memory that does
-- not wrap.
pub alloc-Served :
    {S : Type 0} (malloc : Malloc S) (size : ℕ) (pool : Pool) (w : World S)
    → InMemory malloc
    → size + 16384 < word_mod
    → IsPool pool
    → Served size pool (alloc malloc size pool w)
unfolding alloc
alloc-Served malloc size pool w m h v =
    after_search-Served malloc size pool w _ m h v (carve_first-Found 8 _ pool.blocks)

-- One free after the other.
abbrev pub free_each : {S : Type 0} → Free S → List PoolBlock → S → S
free_each free [] s = s
free_each free (b ∷ blocks) s = free_each free blocks (free b.addr s)

free_blocks-each :
    {S : Type 0} (free : Free S) (front : List PoolBlock) (embedded : PoolBlock) (s : S)
    → free_blocks free (front ++ embedded ∷ []) s ≡ free_each free front s
unfolding free_blocks
free_blocks-each free [] embedded s = refl
free_blocks-each free (b ∷ []) embedded s = refl
free_blocks-each free (b ∷ c ∷ front) embedded s =
    free_blocks-each free (c ∷ front) embedded (free b.addr s)

-- Without both debug options the cleanup of a pool in order comes to no failed assertion: it frees
-- the blocks in front of the last one, each once and in the order of the list, and neither the last
-- one, which lies inside the pool, nor anything else.
pub cleanup-frees :
    {S : Type 0} (free : Free S) (pool : Pool) (w : World S) (front : List PoolBlock)
    (embedded : PoolBlock)
    → IsPool pool
    → (pool.redzones && pool.sizeinfo) ≡ false
    → pool.blocks ≡ front ++ embedded ∷ []
    → cleanup free pool w ≡ some (record w { state = free_each free front w.state })
unfolding cleanup check_integrity
cleanup-frees free pool w front embedded v h e =
    let frees : free_blocks free pool.blocks w.state ≡ free_each free front w.state =
      ap (λ l. free_blocks free l w.state) e ∙ free_blocks-each free front embedded w.state in
    rw (← frees) (ground (arith, check_marks-true pool.blocks v.fits))
