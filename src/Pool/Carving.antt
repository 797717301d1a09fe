-- ===== src/Pool/Carving.antt =====
-- The blocks of a pool while `apc_realpool_alloc` carves them.
use pecl_caching_apc.Base.{
  ℕ, zero, suc, ◌+◌, ◌-◌, ◌≤◌, ◌<◌, ◌≡◌, refl, true, Option, none, some, List, [], ◌∷◌, arith, leb,
  sub64, word_mod, All, weigh, length, Bool-cases, inl, inr, ap,
}
use pecl_caching_apc.Pool.{PoolBlock, pool_block_size, init_pool_block}
use pecl_caching_apc.Pool.Alloc.{carve, carve_first, skip_block}
use pecl_caching_apc.Pool.Cleanup.{check_marks}

-- The used bytes of a block end at its mark, the free ones at its end, and no address wraps.
abbrev pub Fits : PoolBlock → Type 0
Fits b =
    (b.avail ≤ b.capacity)
    × (b.mark + b.avail ≡ b.addr + pool_block_size + b.capacity)
    × (b.addr + pool_block_size + b.capacity < word_mod)

abbrev pub spent : PoolBlock → ℕ
spent b = b.capacity - b.avail

-- One block of the list, with `r` bytes of room, has been carved at `mark`.
pub data Carved (r mark : ℕ) : List PoolBlock → List PoolBlock → Type 0 where
  here :
      (b : PoolBlock) (blocks : List PoolBlock)
      → r ≤ b.avail
      → mark ≡ b.mark
      → Carved r mark (b ∷ blocks) (carve r b ∷ blocks)
  there :
      (b : PoolBlock) (blocks blocks' : List PoolBlock)
      → Carved r mark blocks blocks'
      → Carved r mark (b ∷ blocks) (b ∷ blocks')

-- The `n` bytes from `p` on are used bytes of a block.
pub data Region (p n : ℕ) : List PoolBlock → Type 0 where
  region_here :
      (b : PoolBlock) (blocks : List PoolBlock)
      → b.addr + pool_block_size ≤ p
      → p + n ≤ b.mark
      → Region p n (b ∷ blocks)
  region_there :
      (b : PoolBlock) (blocks : List PoolBlock) → Region p n blocks → Region p n (b ∷ blocks)

-- What a search of the blocks may find.
pub data Found (r : ℕ) (blocks : List PoolBlock) : Option (ℕ × List PoolBlock) → Type 0 where
  not_found : Found r blocks none
  found :
      (mark : ℕ) (blocks' : List PoolBlock)
      → Carved r mark blocks blocks'
      → Found r blocks (some (mark, blocks'))

skip-Found :
    {r : ℕ} {blocks : List PoolBlock} {o : Option (ℕ × List PoolBlock)} (b : PoolBlock)
    → Found r blocks o
    → Found r (b ∷ blocks) (skip_block b o)
skip-Found b not_found = not_found
skip-Found b (found mark blocks' c) = found mark (b ∷ blocks') (there b _ blocks' c)

pub carve_first-Found :
    (look r : ℕ) (blocks : List PoolBlock) → Found r blocks (carve_first look r blocks)
unfolding carve_first
carve_first-Found zero r blocks = not_found
carve_first-Found (suc look) r [] = not_found
carve_first-Found (suc look) r (b ∷ blocks) = elim (Bool-cases (leb r b.avail)) [
  | inl e ↦ rw e (found b.mark (carve r b ∷ blocks) (here b blocks (ground (arith)) refl))
  | inr e ↦ rw e (skip-Found b (carve_first-Found look r blocks))
]

carve-Fits : (r : ℕ) (b : PoolBlock) → r ≤ b.avail → Fits b → Fits (carve r b)
carve-Fits r b h (k, e, w) = (omega arith, omega arith, w)

module _ {r mark : ℕ} where
  pub Carved-Fits :
      {blocks blocks' : List PoolBlock}
      → Carved r mark blocks blocks'
      → All Fits blocks
      → All Fits blocks'
  Carved-Fits (here b blocks h e) (f, fs) = (carve-Fits r b h f, fs)
  Carved-Fits (there b blocks blocks' c) (f, fs) = (f, Carved-Fits c fs)

  pub Carved-spent :
      {blocks blocks' : List PoolBlock}
      → Carved r mark blocks blocks'
      → All Fits blocks
      → weigh spent blocks' ≡ weigh spent blocks + r
  Carved-spent (here b blocks h e) (f, fs) = let (k, e', w) = f in omega arith
  Carved-spent (there b blocks blocks' c) (f, fs) = omega (arith, Carved-spent c fs)

  pub Carved-length :
      {blocks blocks' : List PoolBlock}
      → Carved r mark blocks blocks'
      → length blocks' ≡ length blocks
  Carved-length (here b blocks h e) = refl
  Carved-length (there b blocks blocks' c) = ap suc (Carved-length c)

  pub Carved-Region :
      {blocks blocks' : List PoolBlock}
      → Carved r mark blocks blocks'
      → All Fits blocks
      → Region mark r blocks'
  Carved-Region (here b blocks h e) (f, fs) =
      let (k, e', w) = f in region_here (carve r b) blocks (omega arith) (omega arith)
  Carved-Region (there b blocks blocks' c) (f, fs) = region_there b blocks' (Carved-Region c fs)

pub Region-part :
    {p q n k : ℕ} {blocks : List PoolBlock}
    → Region p n blocks
    → p ≤ q
    → q + k ≤ p + n
    → Region q k blocks
Region-part (region_here b blocks h l) i j = region_here b blocks (omega arith) (omega arith)
Region-part (region_there b blocks r) i j = region_there b blocks (Region-part r i j)

pub init_pool_block-Fits :
    (addr size : ℕ) → addr + pool_block_size + size < word_mod → Fits (init_pool_block addr size)
unfolding init_pool_block
init_pool_block-Fits addr size h = (omega arith, omega arith, h)

pub check_marks-true : (blocks : List PoolBlock) → All Fits blocks → check_marks blocks ≡ true
unfolding check_marks
check_marks-true [] fs = refl
check_marks-true (b ∷ blocks) ((k, e, w), fs) =
    let same : sub64 b.mark (b.addr + pool_block_size) ≡ sub64 b.capacity b.avail = omega arith in
    ground (arith, check_marks-true blocks fs)
