-- ===== src/Sma/Fit.antt =====
-- `sma_allocate` against the free list of a segment and its `avail`.
use pecl_caching_apc.Base.{
  ℕ, zero, suc, ◌+◌, ◌≤◌, ◌<◌, ◌≡◌, ◌≢◌, true, false, List, [], ◌∷◌, Option, none, some, arith, leb,
  ltb, if◌then◌else◌, length, word_mod, ◌⊎◌, inl, inr, Bool-cases,
}
use pecl_caching_apc.Sma.{
  Blocks, Segment, Allocation, fails, allocates, search_fit, take_block, allocate, real_size,
  block_size, write, fits_whole, check_canary, unlink, split, set_fnext, set_fprev, set_prev_size,
  set_canary, set_size,
}

pub ltb-false : (a b : ℕ) → b ≤ a → ltb a b ≡ false
ltb-false a b h = ground (arith)

-- The free list from the block `prv` on is `cs`, the sentinel last.
unfoldable pub FreeList : Blocks → (prv : ℕ) → List ℕ → Type 0
FreeList m prv [] = (m prv).fnext ≡ 0
FreeList m prv (c ∷ cs) = ((m prv).fnext ≡ c) × (0 < c) × FreeList m c cs

-- The block before the first one of the list that is large enough.
abbrev pub before_fit : (realsize : ℕ) → Blocks → (prv : ℕ) → List ℕ → Option ℕ
before_fit realsize m prv [] = none
before_fit realsize m prv (c ∷ cs) =
    if leb realsize (m c).size then some prv else before_fit realsize m c cs

-- With fuel for every block of the free list, the search of `sma_allocate` ends, and finds the
-- block before the first block of the list that is large enough, or none where no block is.
pub search_fit-eq :
    (fuel realsize : ℕ) (m : Blocks) (prv : ℕ) (cs : List ℕ)
    → FreeList m prv cs
    → length cs < fuel
    → search_fit fuel realsize m prv ≡ before_fit realsize m prv cs
unfolding search_fit FreeList
search_fit-eq zero realsize m prv cs l h = ground (arith)
search_fit-eq (suc fuel) realsize m prv [] l h = ground (arith)
search_fit-eq (suc fuel) realsize m prv (c ∷ cs) (e, pos, l) h =
    rw e (ground (arith, search_fit-eq fuel realsize m c cs l))

set_fnext-size : (p n : ℕ) (m : Blocks) (q : ℕ) → (set_fnext p n m q).size ≡ (m q).size
unfolding set_fnext write
set_fnext-size p n m q = ground (arith)

set_fprev-size : (p n : ℕ) (m : Blocks) (q : ℕ) → (set_fprev p n m q).size ≡ (m q).size
unfolding set_fprev write
set_fprev-size p n m q = ground (arith)

set_prev_size-size : (p n : ℕ) (m : Blocks) (q : ℕ) → (set_prev_size p n m q).size ≡ (m q).size
unfolding set_prev_size write
set_prev_size-size p n m q = ground (arith)

set_canary-size : (p : ℕ) (m : Blocks) (q : ℕ) → (set_canary p m q).size ≡ (m q).size
unfolding set_canary write
set_canary-size p m q = ground (arith)

set_size_self : (p n : ℕ) (m : Blocks) → (set_size p n m p).size ≡ n
unfolding set_size write
set_size_self p n m = ground (arith)

set_size-other : (p n : ℕ) (m : Blocks) (q : ℕ) → q ≢ p → (set_size p n m q).size ≡ (m q).size
unfolding set_size write
set_size-other p n m q h = ground (arith)

ruleset field_sizes =
    (set_fnext-size, set_fprev-size, set_prev_size-size, set_canary-size, set_size_self)

pub unlink-size : (prv cur : ℕ) (m : Blocks) → (unlink prv cur m cur).size ≡ (m cur).size
unfolding unlink
unlink-size prv cur m = simp field_sizes

pub split-size :
    (cur realsize : ℕ) (m : Blocks) → 0 < realsize → (split cur realsize m cur).size ≡ realsize
unfolding split
split-size cur realsize m h =
    simp (field_sizes, set_size-other (cur + realsize) _ _ cur (λ e. omega arith))

-- The allocation is of the block at `cur`, holds `size` bytes, and takes the bytes of the block,
-- with its header, from `avail`.
pub data Granted (size cur : ℕ) (seg : Segment) : Allocation → Type 0 where
  granted :
      (allocated : ℕ) (seg' : Segment)
      → size ≤ allocated
      → seg'.avail + (allocated + block_size) ≡ seg.avail
      → (seg'.blocks cur).size ≡ allocated + block_size
      → Granted size cur seg (allocates (cur + block_size) allocated seg')

pub real_size-bounds :
    (size : ℕ)
    → size + 56 < word_mod
    → (size + block_size ≤ real_size size) × (real_size size < size + block_size + 8)
unfolding real_size
real_size-bounds size h = omega arith

handed_out-size :
    (cur : ℕ) (m : Blocks) → (set_canary cur (set_fnext cur 0 m) cur).size ≡ (m cur).size
handed_out-size cur m = simp field_sizes

take_block-Granted :
    (size fragment prv : ℕ) (seg : Segment)
    → size + 56 < word_mod
    → real_size size ≤ (seg.blocks (seg.blocks prv).fnext).size
    → (seg.blocks (seg.blocks prv).fnext).size ≤ seg.avail
    → seg.avail < word_mod
    → check_canary prv seg.blocks ≡ true
    → check_canary (seg.blocks prv).fnext seg.blocks ≡ true
    → Granted size (seg.blocks prv).fnext seg (take_block (real_size size) fragment prv seg)
unfolding take_block
take_block-Granted size fragment prv seg h fit large word k₁ k₂ =
    let m = seg.blocks in
    let cur = (m prv).fnext in
    let bounds = real_size-bounds size h in
    rw (k₁, k₂)
      (elim (Bool-cases (fits_whole (m cur).size (real_size size) fragment)) [
        | inl e ↦
            rw (e, unlink-size prv cur m)
              (granted _ _ (omega arith) (omega arith)
                (omega (arith, handed_out-size cur (unlink prv cur m), unlink-size prv cur m)))
        | inr e ↦
            rw (e, split-size cur (real_size size) m (omega arith))
              (granted _ _ (omega arith) (omega arith) (
                omega (
                  arith,
                  handed_out-size cur (split cur (real_size size) m),
                  split-size cur (real_size size) m (omega arith),
                )))
      ])

before_fit-fits :
    (realsize : ℕ) (m : Blocks) (p : ℕ) (cs : List ℕ) (prv : ℕ)
    → FreeList m p cs
    → before_fit realsize m p cs ≡ some prv
    → realsize ≤ (m (m prv).fnext).size
unfolding FreeList
before_fit-fits realsize m p [] prv l h = ground (arith)
before_fit-fits realsize m p (c ∷ cs) prv (e, pos, l) h =
    elim (Bool-cases (leb realsize (m c).size)) [
      | inl y ↦ ground (arith)
      | inr y ↦ before_fit-fits realsize m c cs prv l (ground (arith))
    ]

-- An allocation takes the first block of the free list that is large enough for the request with
-- its header: it returns the address behind that block's header, at least the `size` bytes asked
-- for, and `avail` goes down by what it returns and the header. The conditions are that the free
-- list is one, shorter than the segment, that `avail` covers the request and is a word, that the
-- request with header and padding is one, that the found block is no larger than `avail`, and
-- that the three canaries that the code checks are intact.
pub allocate-Granted :
    (size fragment prv : ℕ) (seg : Segment) (cs : List ℕ)
    → FreeList seg.blocks seg.first cs
    → length cs < seg.segsize
    → size + 56 < word_mod
    → before_fit (real_size size) seg.blocks seg.first cs ≡ some prv
    → (seg.blocks (seg.blocks prv).fnext).size ≤ seg.avail
    → seg.avail < word_mod
    → check_canary seg.first seg.blocks ≡ true
    → check_canary prv seg.blocks ≡ true
    → check_canary (seg.blocks prv).fnext seg.blocks ≡ true
    → Granted size (seg.blocks prv).fnext seg (allocate size fragment seg)
unfolding allocate
allocate-Granted size fragment prv seg cs l short h found large word k₀ k₁ k₂ =
    let fit = before_fit-fits (real_size size) seg.blocks seg.first cs prv l found in
    rw
      (
        ltb-false seg.avail (real_size size) (omega arith),
        k₀,
        search_fit-eq seg.segsize (real_size size) seg.blocks seg.first cs l short,
        found,
      )
      (take_block-Granted size fragment prv seg h fit large word k₁ k₂)

-- An allocation fails, and changes nothing, where `avail` is below the request with its header,
-- or where no block of the free list is large enough. The free list is one, shorter than the
-- segment, and the canary of its head is intact.
pub allocate-fails :
    (size fragment : ℕ) (seg : Segment) (cs : List ℕ)
    → FreeList seg.blocks seg.first cs
    → length cs < seg.segsize
    → check_canary seg.first seg.blocks ≡ true
    → (seg.avail < real_size size) ⊎ (before_fit (real_size size) seg.blocks seg.first cs ≡ none)
    → allocate size fragment seg ≡ fails
unfolding allocate
allocate-fails size fragment seg cs l short k (inl few) = ground (arith)
allocate-fails size fragment seg cs l short k (inr no_fit) =
    rw (k, search_fit-eq seg.segsize (real_size size) seg.blocks seg.first cs l short, no_fit)
      (ground (arith))
