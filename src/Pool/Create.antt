-- ===== src/Pool/Create.antt =====
-- apc_pool.c: `apc_realpool_create`.
use pecl_caching_apc.Base.{
  ℕ, ◌+◌, Bool, Option, none, some, [], ◌∷◌, ◌==◌, if◌then◌else◌, align_word,
}
use pecl_caching_apc.Pool.{Pool, realpool_size, first_at, Malloc, init_pool_block}

-- The block sizes of the pool types APC_SMALL_POOL, APC_MEDIUM_POOL and APC_LARGE_POOL.
unfoldable pub dsize_of : (type : ℕ) → Option ℕ
dsize_of type =
    if type == 1
    then some 512
    else (if type == 3 then some 8192 else (if type == 2 then some 4096 else none))

-- The pool of `apc_realpool_create` at the address that the allocator gave.
abbrev pub made_pool :
    {S : Type 0} → (dsize : ℕ) (sizeinfo redzones : Bool) → Option ℕ × S → Option Pool × S
made_pool dsize sizeinfo redzones (none, s) = (none, s)
made_pool dsize sizeinfo redzones (some addr, s) = (
  some record {
    sizeinfo = sizeinfo;
    redzones = redzones;
    size = realpool_size + align_word dsize;
    used = 0;
    dsize = dsize;
    count = 0;
    blocks = init_pool_block (addr + first_at) dsize ∷ [];
  },
  s,
)

abbrev pub create_sized :
    {S : Type 0} → Malloc S → (sizeinfo redzones : Bool) → S → Option ℕ → Option Pool × S
create_sized malloc sizeinfo redzones s none = (none, s)
create_sized malloc sizeinfo redzones s (some dsize) =
    made_pool dsize sizeinfo redzones (malloc (realpool_size + align_word dsize) s)

-- `apc_realpool_create`, with the bits of `type` that say the size and the two options.
unfoldable pub create :
    {S : Type 0} → Malloc S → (type : ℕ) (sizeinfo redzones : Bool) → S → Option Pool × S
create malloc type sizeinfo redzones s = create_sized malloc sizeinfo redzones s (dsize_of type)
