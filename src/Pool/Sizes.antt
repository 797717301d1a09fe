-- ===== src/Pool/Sizes.antt =====
-- The sizes that the allocations of a pool come to.
use pecl_caching_apc.Base.{
  ℕ, ◌+◌, ◌≤◌, ◌<◌, ◌≡◌, Bool, true, false, arith, ltb, if◌then◌else◌, add64, sub64, word_mod,
  align_word, align_size, Bool-cases, inl, inr, ◌⊎◌, sym, subst,
}
use pecl_caching_apc.Pool.{Pool, taken_size, red_size, redzone_size}

abbrev pub IsDsize : ℕ → Type 0
IsDsize d = (d ≡ 512) ⊎ ((d ≡ 4096) ⊎ (d ≡ 8192))

pub align_word-le : (x : ℕ) → x + 8 < word_mod → (x ≤ align_word x) × (align_word x < x + 8)
align_word-le x h = omega arith

redzone-le :
    (size : ℕ)
    → size + 32 < word_mod
    → (size ≤ add64 size (redzone_size size)) × (add64 size (redzone_size size) < size + 20)
unfolding redzone_size
redzone-le size h =
    let (low, high) = align_word-le size (omega arith) in
    elim (Bool-cases (ltb (add64 size 4) (align_word size))) [
      | inl e ↦ rw e (omega arith, omega arith)
      | inr e ↦ rw e (omega arith, omega arith)
    ]

taken-le :
    (sizeinfo redzones : Bool) (size padding : ℕ)
    → size + 32 < word_mod
    → (let realsize =
          if redzones
          then add64 size (if redzones then redzone_size size else padding)
          else align_word size in
        let taken = if sizeinfo then add64 realsize 8 else realsize in
        (size + (if sizeinfo then 8 else 0) ≤ taken) × (taken < size + 32))
taken-le true true size padding h =
    let (low, high) = redzone-le size h in (omega arith, omega arith)
taken-le true false size padding h =
    let (low, high) = align_word-le size (omega arith) in (omega arith, omega arith)
taken-le false true size padding h =
    let (low, high) = redzone-le size h in (omega arith, omega arith)
taken-le false false size padding h =
    let (low, high) = align_word-le size (omega arith) in (omega arith, omega arith)

-- What is taken for a request covers it.
pub taken_size-bounds :
    (pool : Pool) (size : ℕ)
    → size + 32 < word_mod
    → (size + (if pool.sizeinfo then 8 else 0) ≤ taken_size pool size)
      × (taken_size pool size < size + 32)
unfolding taken_size red_size
taken_size-bounds pool size h =
    taken-le pool.sizeinfo pool.redzones size (sub64 (align_word size) size) h

pub align_size-bounds :
    (x d : ℕ) → IsDsize d → x + 8192 < word_mod → (x ≤ align_size x d) × (align_size x d < x + 8192)
align_size-bounds x d (inl e) h =
    subst (λ n. (x ≤ align_size x n) × (align_size x n < x + 8192)) (sym e)
      (omega arith, omega arith)
align_size-bounds x d (inr (inl e)) h =
    subst (λ n. (x ≤ align_size x n) × (align_size x n < x + 8192)) (sym e)
      (omega arith, omega arith)
align_size-bounds x d (inr (inr e)) h =
    subst (λ n. (x ≤ align_size x n) × (align_size x n < x + 8192)) (sym e)
      (omega arith, omega arith)

pub dsize-word : (d : ℕ) → IsDsize d → d + 8 < word_mod
dsize-word d (inl e) = omega arith
dsize-word d (inr (inl e)) = omega arith
dsize-word d (inr (inr e)) = omega arith
