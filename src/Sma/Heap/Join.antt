-- ===== src/Sma/Heap/Join.antt =====
-- The memory while `sma_deallocate` joins a block with the free blocks beside it.
use pecl_caching_apc.Base.{ℕ, ◌+◌, ◌≤◌, ◌<◌, ◌≡◌, ◌≢◌, List, [], ◌∷◌, ◌++◌, arith, length, sub64}
use pecl_caching_apc.Sma.{Blocks, canary_value, write, set_size, set_fnext, set_fprev, reset_canary}
use pecl_caching_apc.Sma.Heap.Links.{update, occurs, Distinct, Linked, Linked-frame}
use pecl_caching_apc.Sma.Heap.Sentinel.{with_end, Linked-take, next-inner}
use pecl_caching_apc.Sma.Heap.Fields.{sizes, prev_sizes, nexts, previouses, canaries}
use pecl_caching_apc.Sma.Heap.Tiles.{
  Tile, end, frees, useds, end-≤, occurs-append, blocks_at-before,
}
use pecl_caching_apc.Sma.Heap.Runs.{Run, blocks_at-behind, blocks_at-once}
use pecl_caching_apc.Sma.Heap.Tiled.{start}

-- The free block `f` leaves the list, and the block `b` joins the block `a` before it.
abbrev pub absorb : (f a b : ℕ) → Blocks → Blocks
absorb f a b m =
    let m₁ = set_fprev (m f).fnext (m f).fprev m in
    let m₂ = set_fnext (m₁ f).fprev (m₁ f).fnext m₁ in
    reset_canary b (set_size a ((m₂ a).size + (m₂ b).size) m₂)

module _ (f a b : ℕ) (m : Blocks) (q : ℕ) where
  pub absorb-sizes : sizes (absorb f a b m) q ≡ update (sizes m) a (sizes m a + sizes m b) q
  unfolding set_size set_fnext set_fprev reset_canary write
  absorb-sizes = ground (arith)

  pub absorb-prev_sizes : prev_sizes (absorb f a b m) q ≡ prev_sizes m q
  unfolding set_size set_fnext set_fprev reset_canary write
  absorb-prev_sizes = ground (arith)

  pub absorb-nexts :
      nexts m f ≢ f → nexts (absorb f a b m) q ≡ update (nexts m) (previouses m f) (nexts m f) q
  unfolding set_size set_fnext set_fprev reset_canary write
  absorb-nexts h = ground (arith)

  pub absorb-previouses :
      previouses (absorb f a b m) q ≡ update (previouses m) (nexts m f) (previouses m f) q
  unfolding set_size set_fnext set_fprev reset_canary write
  absorb-previouses = ground (arith)

  pub absorb-canaries : canaries (absorb f a b m) q ≡ update (canaries m) b (sub64 0 42) q
  unfolding set_size set_fnext set_fprev reset_canary write
  absorb-canaries = ground (arith)

-- A block that is neither in the free list nor in use: the blocks before it, and those from `stop`
-- on, which it ends at. The `prev_size` behind it is open.
pub record IsParted (m : Blocks) (first : ℕ) (us : List Tile) (cur n stop j : ℕ) (vs : List Tile)
    (fl : List ℕ) : Type 0 where
  pub place : end (start first) us ≡ cur
  pub stops : cur + n ≡ stop
  pub large : 40 ≤ n
  pub front : Run (sizes m) (prev_sizes m) (start first) 0 us
  pub size : sizes m cur ≡ n
  pub back : Run (sizes m) (prev_sizes m) stop j vs
  pub last_size : sizes m (end stop vs) ≡ 0
  pub links : Linked (nexts m) (previouses m) first (with_end fl (end stop vs))
  pub lists : (q : ℕ) → occurs q fl ≡ occurs q (frees (start first) us) + occurs q (frees stop vs)
  pub as_many : length fl ≡ length (frees (start first) us) + length (frees stop vs)
  pub unlinked :
      (q : ℕ) → 0 < occurs q (useds (start first) us) + occurs q (useds stop vs) → nexts m q ≡ 0
  pub checks :
      (q : ℕ)
      → 0
        < occurs q (first ∷ cur ∷ fl) + occurs q (useds (start first) us) + occurs q (useds stop vs)
      → canaries m q ≡ canary_value

module _ {m : Blocks} {first : ℕ} {us : List Tile} {cur n stop j : ℕ} {vs : List Tile} {fl : List ℕ}
    (t : IsParted m first us cur n stop j vs fl) where
  pub IsParted-once :
      (q : ℕ)
      → occurs q (first ∷ cur ∷ with_end fl (end stop vs))
          + occurs q (useds (start first) us)
          + occurs q (useds stop vs)
        ≤ 1
  IsParted-once q =
      let total = occurs-append q fl (end stop vs ∷ []) in
      let place = t.place in
      let stops = t.stops in
      let large = t.large in
      ground (
        arith,
        total,
        t.lists q,
        blocks_at-before q (start first) us,
        blocks_at-behind _ _ q (start first) 0 us t.front,
        blocks_at-once _ _ q (start first) 0 us t.front,
        end-≤ (start first) us,
        blocks_at-before q stop vs,
        blocks_at-behind _ _ q stop j vs t.back,
        blocks_at-once _ _ q stop j vs t.back,
        end-≤ stop vs,
      )

  pub IsParted-Distinct : Distinct (first ∷ with_end fl (end stop vs))
  IsParted-Distinct q = ground (arith, IsParted-once q)

  pub IsParted-member :
      (q : ℕ) → occurs q (with_end fl (end stop vs)) ≡ occurs q fl + occurs q (end stop vs ∷ [])
  IsParted-member q = occurs-append q fl (end stop vs ∷ [])

-- A block leaves the list.
module _ (m : Blocks) (first l f : ℕ) (xs ys : List ℕ)
    (links : Linked (nexts m) (previouses m) first (with_end (xs ++ f ∷ ys) l))
    (distinct : Distinct (first ∷ with_end (xs ++ f ∷ ys) l)) where
  pub next-other : nexts m f ≢ f
  next-other e = absurd (
      ground (
        arith,
        next-inner _ _ first f l xs ys links,
        distinct f,
        occurs-append f (xs ++ f ∷ ys) (l ∷ []),
        occurs-append f xs (f ∷ ys),
        occurs-append f ys (l ∷ []),
      ))

  pub absorb-links :
      (a b : ℕ)
      → Linked (nexts (absorb f a b m)) (previouses (absorb f a b m)) first (with_end (xs ++ ys) l)
  absorb-links a b =
      Linked-frame _ _ _ _ first _ (λ q i. absorb-nexts f a b m q next-other)
        (λ q i. absorb-previouses f a b m q) (Linked-take _ _ first f l xs ys distinct links)
