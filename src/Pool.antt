-- ===== src/Pool.antt =====
-- apc_pool.c: the pools out of which the cache entries are allocated. A pool is a list of blocks,
-- each filled from its `mark` on. The allocator below is a parameter, and the memory is bytes by
-- address. This is the 64-bit build; with both flags off it is the one without APC_POOL_DEBUG.
pub mod Alloc
pub mod Cleanup
pub mod Create
pub mod Sizes
pub mod Carving
pub mod Laws
pub mod Start
mod Tests
use pecl_caching_apc.Base.{
  ℕ, zero, suc, ◌+◌, ◌-◌, ◌*◌, ◌/◌, ◌%◌, ◌^◌, Bool, true, false, ◌&&◌, ◌||◌, not, Option, none,
  some, List, [], ◌∷◌, ◌==◌, ltb, leb, if◌then◌else◌, add64, sub64, align_word, align_size, get_or,
}

-- `pool_block`, whose own address is `addr`; `sizeof` is 32 and the data follows.
pub record PoolBlock : Type 0 where
  pub addr : ℕ
  pub avail : ℕ
  pub capacity : ℕ
  pub mark : ℕ

abbrev pub pool_block_size : ℕ
pool_block_size = 32

-- `apc_realpool`, the head of its list of blocks first. It contains the last one, at `first_at`.
pub record Pool : Type 0 where
  pub sizeinfo : Bool
  pub redzones : Bool
  pub size : ℕ
  pub used : ℕ
  pub dsize : ℕ
  pub count : ℕ
  pub blocks : List PoolBlock

abbrev pub realpool_size : ℕ
realpool_size = 144

abbrev pub first_at : ℕ
first_at = 112

abbrev pub Bytes : Type 0
Bytes = ℕ → ℕ

-- The memory and the state of the allocator below.
pub record World (S : Type 0) : Type 0 where
  pub bytes : Bytes
  pub state : S

-- `apc_malloc_t`
abbrev pub Malloc : Type 0 → Type 0
Malloc S = ℕ → S → Option ℕ × S

-- `apc_free_t`
abbrev pub Free : Type 0 → Type 0
Free S = ℕ → S → S

-- `decaff`
abbrev pub decaff : List ℕ
decaff =
    0xde ∷ 0xca ∷ 0xff ∷ 0xc0 ∷ 0xff ∷ 0xee ∷ 0xba ∷ 0xad ∷ 0xde ∷ 0xca ∷ 0xff ∷ 0xc0 ∷ 0xff ∷ 0xee
    ∷ 0xba ∷ 0xad ∷ 0xde ∷ 0xca ∷ 0xff ∷ 0xc0 ∷ 0xff ∷ 0xee ∷ 0xba ∷ 0xad ∷ 0xde ∷ 0xca ∷ 0xff
    ∷ 0xc0 ∷ 0xff ∷ 0xee ∷ 0xba ∷ 0xad ∷ []

-- `REDZONE_SIZE`
unfoldable pub redzone_size : ℕ → ℕ
redzone_size size =
    if ltb (add64 size 4) (align_word size)
    then sub64 (align_word size) size
    else add64 (sub64 (align_word size) size) 8

-- `MARK_REDZONE`
unfoldable pub mark_redzone : (at redsize : ℕ) → Bytes → Bytes
mark_redzone at redsize m p =
    if leb at p && ltb p (at + redsize) then get_or decaff (p - at) 0 else m p

-- The `n` bytes at an address.
unfoldable pub read : Bytes → (at n : ℕ) → List ℕ
read m at zero = []
read m at (suc n) = m at ∷ read m (suc at) n

-- `memcmp` over the length of the first list
unfoldable pub same_bytes : List ℕ → List ℕ → Bool
same_bytes [] ys = true
same_bytes (x ∷ xs) [] = false
same_bytes (x ∷ xs) (y ∷ ys) = x == y && same_bytes xs ys

-- `CHECK_REDZONE`
unfoldable pub check_redzone : (at redsize : ℕ) → Bytes → Bool
check_redzone at redsize m = same_bytes (read m at redsize) decaff

-- A `size_t` in memory, its low byte first.
unfoldable pub write_word : (at n : ℕ) → Bytes → Bytes
write_word at n m p = if leb at p && ltb p (at + 8) then n / 256 ^ (p - at) % 256 else m p

unfoldable pub read_word : (at : ℕ) → Bytes → ℕ
read_word at m =
    m at
    + 256
      * (m (at + 1)
          + 256
            * (m (at + 2)
                + 256
                  * (m (at + 3)
                      + 256
                        * (m (at + 4)
                            + 256 * (m (at + 5) + 256 * (m (at + 6) + 256 * m (at + 7)))))))

-- `INIT_POOL_BLOCK`, less the link in the list
unfoldable pub init_pool_block : (addr size : ℕ) → PoolBlock
init_pool_block addr size = record {
  addr = addr;
  avail = size;
  capacity = size;
  mark = addr + pool_block_size;
}

-- The pool with a block in front of the others, if the allocator gave one.
abbrev pub push_block : {S : Type 0} → (size : ℕ) → Pool → Option ℕ × S → Option Pool × S
push_block size pool (none, s) = (none, s)
push_block size pool (some addr, s) = (
  some (record pool {
    blocks = init_pool_block addr size ∷ pool.blocks;
    size = add64 pool.size (add64 pool_block_size (align_word size));
    count = suc pool.count;
  }),
  s,
)

-- `create_pool_block`
unfoldable pub create_pool_block : {S : Type 0} → Malloc S → (size : ℕ) → Pool → S → Option Pool × S
create_pool_block malloc size pool s =
    push_block size pool (malloc (add64 pool_block_size (align_word size)) s)

-- The padding or red zone behind an allocation, and what it takes of its block.
unfoldable pub red_size : Pool → (size : ℕ) → ℕ
red_size pool size = if pool.redzones then redzone_size size else sub64 (align_word size) size

unfoldable pub taken_size : Pool → (size : ℕ) → ℕ
taken_size pool size =
    let realsize = if pool.redzones then add64 size (red_size pool size) else align_word size in
    if pool.sizeinfo then add64 realsize 8 else realsize
