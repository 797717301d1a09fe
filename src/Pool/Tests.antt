-- ===== src/Pool/Tests.antt =====
-- The theorems on apc_pool.c over an allocator that hands out one address after the other.
use pecl_caching_apc.Base.{
  ℕ, ◌+◌, ◌≡◌, refl, false, suc, add64, align_word, List, [], ◌∷◌, none, some, arith, leb,
  if◌then◌else◌,
}
use pecl_caching_apc.Pool.{Pool, World, Malloc, Free, init_pool_block, pool_block_size}
use pecl_caching_apc.Pool.Alloc.{alloc}
use pecl_caching_apc.Pool.Cleanup.{cleanup}
use pecl_caching_apc.Pool.Create.{create, dsize_of}
use pecl_caching_apc.Pool.Start.{create-IsPool}
use pecl_caching_apc.Pool.Laws.{
  IsPool, InMemory, Served, alloc-Served, cleanup-frees, push_block-IsPool,
}

abbrev bump : Malloc ℕ
bump n s = if leb (s + n) 100000 then (some s, s + n) else (none, s)

bump-InMemory : InMemory bump
bump-InMemory n s addr h = ground (arith)

abbrev pool : Pool
pool = record {
  sizeinfo = false;
  redzones = false;
  size = 656;
  used = 0;
  dsize = 512;
  count = 0;
  blocks = init_pool_block 1112 512 ∷ [];
}

creates : (create bump 1 false false 1000).0 ≡ some pool
unfolding create dsize_of
creates = refl

pool-IsPool : IsPool pool
pool-IsPool = create-IsPool bump 1 false false 1000 pool bump-InMemory creates

create-IsPool_example : IsPool pool
create-IsPool_example = create-IsPool bump 1 false false 1000 pool bump-InMemory creates

abbrev world : World ℕ
world = record { bytes = λ p. 0; state = 2000 }

alloc-Served_example : Served 600 pool (alloc bump 600 pool world)
alloc-Served_example = alloc-Served bump 600 pool world bump-InMemory (omega arith) pool-IsPool

-- A second block in front of the one inside the pool, and a log of what is freed.
abbrev larger : Pool
larger = record pool {
  blocks = init_pool_block 4000 512 ∷ pool.blocks;
  size = add64 pool.size (add64 pool_block_size (align_word 512));
  count = suc pool.count;
}

larger-IsPool : IsPool larger
larger-IsPool = push_block-IsPool 512 4000 pool pool-IsPool (omega arith)

abbrev log : Free (List ℕ)
log p freed = p ∷ freed

abbrev logged : World (List ℕ)
logged = record { bytes = λ p. 0; state = [] }

cleanup-frees_example : cleanup log larger logged ≡ some (record logged { state = 4000 ∷ [] })
unfolding init_pool_block
cleanup-frees_example =
    cleanup-frees log larger logged (init_pool_block 4000 512 ∷ []) (init_pool_block 1112 512)
      larger-IsPool refl refl
