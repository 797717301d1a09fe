-- ===== src/Pool/Start.antt =====
-- The pools that `apc_realpool_create` makes.
use pecl_caching_apc.Base.{
  ℕ, ◌+◌, ◌<◌, ◌≡◌, refl, Bool, Option, none, some, arith, ◌==◌, word_mod, align_word, Bool-cases,
  inl, inr, ap, subst,
}
use pecl_caching_apc.Pool.{Pool, Malloc, init_pool_block}
use pecl_caching_apc.Pool.Create.{create, made_pool, create_sized, dsize_of}
use pecl_caching_apc.Pool.Carving.{init_pool_block-Fits}
use pecl_caching_apc.Pool.Sizes.{IsDsize, align_word-le, dsize-word}
use pecl_caching_apc.Pool.Laws.{IsPool, InMemory}

dsize_of-IsDsize : (type dsize : ℕ) → dsize_of type ≡ some dsize → IsDsize dsize
unfolding dsize_of
dsize_of-IsDsize type dsize h = elim (Bool-cases (type == 1)) [
  | inl e ↦ inl (ground (arith))
  | inr e ↦ elim (Bool-cases (type == 3)) [
    | inl k ↦ inr (inr (ground (arith)))
    | inr k ↦ inr (inl (ground (arith)))
  ]
]

some-Pool : {a b : Pool} → some a ≡ some b → a ≡ b
some-Pool {a} e = ap (λ o. elim o [ none ↦ a | some x ↦ x ]) e

made_pool-IsPool :
    {S : Type 0} (dsize : ℕ) (sizeinfo redzones : Bool) (got : Option ℕ × S) (pool : Pool)
    → IsDsize dsize
    → ((addr : ℕ) → got.0 ≡ some addr → addr + (144 + align_word dsize) < word_mod)
    → (made_pool dsize sizeinfo redzones got).0 ≡ some pool
    → IsPool pool
unfolding init_pool_block
made_pool-IsPool dsize sizeinfo redzones (none, s) pool d m h = ground (arith)
made_pool-IsPool dsize sizeinfo redzones (some addr, s) pool d m h =
    let room = m addr refl in
    let (low, high) = align_word-le dsize (dsize-word dsize d) in
    subst IsPool (some-Pool h) record {
      fits = (init_pool_block-Fits (addr + 112) dsize (omega arith), tt);
      counted = refl;
      used_up = omega arith;
      sized = d;
    }

create_sized-IsPool :
    {S : Type 0} (malloc : Malloc S) (sizeinfo redzones : Bool) (s : S) (pool : Pool) (o : Option ℕ)
    → InMemory malloc
    → ((dsize : ℕ) → o ≡ some dsize → IsDsize dsize)
    → (create_sized malloc sizeinfo redzones s o).0 ≡ some pool
    → IsPool pool
create_sized-IsPool malloc sizeinfo redzones s pool none m d h = ground (arith)
create_sized-IsPool malloc sizeinfo redzones s pool (some dsize) m d h =
    made_pool-IsPool dsize sizeinfo redzones _ pool (d dsize refl) (m _ s) h

-- A pool that `apc_realpool_create` has made, of whatever type, is in order. The allocator below returns memory that does not
-- wrap.
pub create-IsPool :
    {S : Type 0} (malloc : Malloc S) (type : ℕ) (sizeinfo redzones : Bool) (s : S) (pool : Pool)
    → InMemory malloc
    → (create malloc type sizeinfo redzones s).0 ≡ some pool
    → IsPool pool
unfolding create
create-IsPool malloc type sizeinfo redzones s pool m h =
    create_sized-IsPool malloc sizeinfo redzones s pool (dsize_of type) m (dsize_of-IsDsize type) h
