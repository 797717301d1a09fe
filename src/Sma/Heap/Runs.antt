-- ===== src/Sma/Heap/Runs.antt =====
-- The headers of the blocks in memory, as a run that matches a sequence of tiles.
use pecl_caching_apc.Base.{ℕ, ◌+◌, ◌≤◌, ◌<◌, ◌≡◌, refl, List, [], ◌∷◌, ◌++◌, arith, ◌∙◌}
use pecl_caching_apc.Sma.Heap.Tiles.{
  Tile, free, used, tile_size, behind, end, out, Apart, end-≤, blocks_at, blocks_at-before,
}

-- The headers in memory: the sizes, and the `prev_size` of each block and behind the last one.
-- A block holds its header, and no two free blocks are neighbours.
abbrev pub Run : (sz ps : ℕ → ℕ) → (p k : ℕ) → List Tile → Type 0
Run sz ps p k [] = ps p ≡ k
Run sz ps p k (t ∷ ts) =
    (ps p ≡ k)
    × (sz p ≡ tile_size t)
    × (40 ≤ tile_size t)
    × Apart k (t ∷ ts)
    × Run sz ps (p + tile_size t) (behind t) ts

Apart-front : (k : ℕ) (t : Tile) (us vs : List Tile) → Apart k (t ∷ us ++ vs) → Apart k (t ∷ us)
Apart-front k (free n) us vs a = a
Apart-front k (used n) us vs a = tt

Apart-front_of : (k : ℕ) (t : Tile) (us vs : List Tile) → Apart k (t ∷ us) → Apart k (t ∷ us ++ vs)
Apart-front_of k (free n) us vs a = a
Apart-front_of k (used n) us vs a = tt

module _ (sz ps : ℕ → ℕ) where
  pub blocks_at-behind :
      (q p k : ℕ) (ts : List Tile) → Run sz ps p k ts → end p ts ≤ q → blocks_at q p ts ≡ 0
  blocks_at-behind q p k [] r h = refl
  blocks_at-behind q p k (free n ∷ ts) (_, _, large, _, r) h =
      ground (arith, end-≤ (p + n) ts, blocks_at-behind q (p + n) n ts r)
  blocks_at-behind q p k (used n ∷ ts) (_, _, large, _, r) h =
      ground (arith, end-≤ (p + n) ts, blocks_at-behind q (p + n) 0 ts r)

  pub blocks_at-once : (q p k : ℕ) (ts : List Tile) → Run sz ps p k ts → blocks_at q p ts ≤ 1
  blocks_at-once q p k [] r = omega arith
  blocks_at-once q p k (free n ∷ ts) (_, _, large, _, r) =
      ground (arith, blocks_at-before q (p + n) ts, blocks_at-once q (p + n) n ts r)
  blocks_at-once q p k (used n ∷ ts) (_, _, large, _, r) =
      ground (arith, blocks_at-before q (p + n) ts, blocks_at-once q (p + n) 0 ts r)

  -- The run of the blocks before a block, and that from it on.
  pub Run-prefix :
      (p k : ℕ) (us vs : List Tile) → Run sz ps p k (us ++ vs) → Run sz ps (end p us) (out k us) vs
  Run-prefix p k [] vs r = r
  Run-prefix p k (t ∷ us) vs (_, _, _, _, r) = Run-prefix (p + tile_size t) (behind t) us vs r

  pub Run-tag : (p k : ℕ) (ts : List Tile) → Run sz ps p k ts → ps p ≡ k
  Run-tag p k [] r = r
  Run-tag p k (t ∷ ts) (e, _, _, _, _) = e

  pub Run-end : (p k : ℕ) (ts : List Tile) → Run sz ps p k ts → ps (end p ts) ≡ out k ts
  Run-end p k [] r = r
  Run-end p k (t ∷ ts) (_, _, _, _, r) = Run-end (p + tile_size t) (behind t) ts r

  pub Run-front : (p k : ℕ) (us vs : List Tile) → Run sz ps p k (us ++ vs) → Run sz ps p k us
  Run-front p k [] vs r = Run-tag p k vs r
  Run-front p k (t ∷ us) vs (e, f, large, apart, r) =
      (e, f, large, Apart-front k t us _ apart, Run-front (p + tile_size t) (behind t) us vs r)

  pub Run-Apart : (p k : ℕ) (ts : List Tile) → Run sz ps p k ts → Apart k ts
  Run-Apart p k [] r = tt
  Run-Apart p k (t ∷ ts) (_, _, _, apart, _) = apart

-- The blocks before a place stay, and others come behind.
pub Run-change :
    (sz ps sz' ps' : ℕ → ℕ) (p k : ℕ) (us ws : List Tile)
    → Run sz ps p k us
    → ((q : ℕ) → q < end p us → sz' q ≡ sz q)
    → ((q : ℕ) → q < end p us → ps' q ≡ ps q)
    → Run sz' ps' (end p us) (out k us) ws
    → Run sz' ps' p k (us ++ ws)
Run-change sz ps sz' ps' p k [] ws r s b r' = r'
Run-change sz ps sz' ps' p k (t ∷ us) ws (e, f, large, apart, r) s b r' = (
  ground (arith, b p, e, large, end-≤ (p + tile_size t) us),
  ground (arith, s p, f, large, end-≤ (p + tile_size t) us),
  large,
  Apart-front_of k t us ws apart,
  Run-change sz ps sz' ps' (p + tile_size t) (behind t) us ws r s b r',
)

-- Behind a block, only the `prev_size` of the next one changes.
pub Run-retag :
    (sz ps sz' ps' : ℕ → ℕ) (p k k' : ℕ) (ts : List Tile)
    → Run sz ps p k ts
    → ((q : ℕ) → p ≤ q → sz' q ≡ sz q)
    → ((q : ℕ) → p < q → ps' q ≡ ps q)
    → ps' p ≡ k'
    → Apart k' ts
    → Run sz' ps' p k' ts
Run-retag sz ps sz' ps' p k k' [] r s b tag apart = tag
Run-retag sz ps sz' ps' p k k' (t ∷ ts) (e, f, large, _, r) s b tag apart = (
  tag,
  ground (arith, s p, f),
  large,
  apart,
  Run-retag sz ps sz' ps' (p + tile_size t) (behind t) (behind t) ts r
      (λ q i. s q (omega (arith, i))) (λ q i. b q (omega (arith, i)))
      (b (p + tile_size t) (omega (arith, large)) ∙ Run-tag sz ps (p + tile_size t) (behind t) ts r)
      (Run-Apart sz ps (p + tile_size t) (behind t) ts r),
)

-- Behind a free block comes a used one, or none.
pub Run-used_next :
    (sz ps : ℕ → ℕ) (p k : ℕ) (ts : List Tile) (k' : ℕ) → 0 < k → Run sz ps p k ts → Apart k' ts
Run-used_next sz ps p k [] k' h r = tt
Run-used_next sz ps p k (free n ∷ ts) k' h (_, _, _, apart, _) = absurd (omega (arith, apart))
Run-used_next sz ps p k (used n ∷ ts) k' h r = tt

-- A run depends on its own headers only.
pub Run-frame :
    (sz ps sz' ps' : ℕ → ℕ) (p k : ℕ) (ts : List Tile)
    → Run sz ps p k ts
    → ((q : ℕ) → p ≤ q → q < end p ts → sz' q ≡ sz q)
    → ((q : ℕ) → p ≤ q → q ≤ end p ts → ps' q ≡ ps q)
    → Run sz' ps' p k ts
Run-frame sz ps sz' ps' p k [] r s b = b p (omega arith) (omega arith) ∙ r
Run-frame sz ps sz' ps' p k (t ∷ ts) (e, f, large, apart, r) s b = (
  ground (arith, b p, e, large, end-≤ (p + tile_size t) ts),
  ground (arith, s p, f, large, end-≤ (p + tile_size t) ts),
  large,
  apart,
  Run-frame sz ps sz' ps' (p + tile_size t) (behind t) ts r (λ q i l. s q (omega (arith, i)) l)
      (λ q i l. b q (omega (arith, i)) l),
)
