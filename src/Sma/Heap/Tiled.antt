-- ===== src/Sma/Heap/Tiled.antt =====
-- The memory of a segment: the head of the free list, the blocks, and the sentinel behind them.
use pecl_caching_apc.Base.{ℕ, ◌+◌, ◌≤◌, ◌<◌, ◌≡◌, List, [], ◌∷◌, arith, length, tally-append, ◌==◌}
use pecl_caching_apc.Sma.{Blocks, canary_value, block_size}
use pecl_caching_apc.Sma.Heap.Links.{occurs, Distinct, Linked}
use pecl_caching_apc.Sma.Heap.Sentinel.{with_end}
use pecl_caching_apc.Sma.Heap.Fields.{sizes, prev_sizes, nexts, previouses, canaries}
use pecl_caching_apc.Sma.Heap.Tiles.{Tile, end, frees, useds, end-≤, blocks_at-before}
use pecl_caching_apc.Sma.Heap.Runs.{Run, blocks_at-behind, blocks_at-once}

-- The address of the first block, and that of the sentinel.
abbrev pub start : ℕ → ℕ
start first = first + block_size

abbrev pub sentinel : ℕ → List Tile → ℕ
sentinel first ts = end (start first) ts

-- The blocks lie one behind the other up to the sentinel, with no two free ones side by side and
-- the size of a free one behind it. The free list holds each free block once, in any order, and
-- the sentinel last; used blocks have no next. The head and the blocks have their canaries.
pub record IsTiled (m : Blocks) (first : ℕ) (ts : List Tile) (fl : List ℕ) : Type 0 where
  pub run : Run (sizes m) (prev_sizes m) (start first) 0 ts
  pub last_size : sizes m (sentinel first ts) ≡ 0
  pub links : Linked (nexts m) (previouses m) first (with_end fl (sentinel first ts))
  pub lists : (q : ℕ) → occurs q fl ≡ occurs q (frees (start first) ts)
  pub as_many : length fl ≡ length (frees (start first) ts)
  pub unlinked : (q : ℕ) → 0 < occurs q (useds (start first) ts) → nexts m q ≡ 0
  pub checks :
      (q : ℕ)
      → 0 < occurs q (first ∷ fl) + occurs q (useds (start first) ts)
      → canaries m q ≡ canary_value

module _ {m : Blocks} {first : ℕ} {ts : List Tile} {fl : List ℕ} (t : IsTiled m first ts fl) where
  -- An address is one of the head, the free blocks, the sentinel and the used blocks.
  pub IsTiled-once :
      (q : ℕ)
      → occurs q (first ∷ with_end fl (sentinel first ts)) + occurs q (useds (start first) ts) ≤ 1
  IsTiled-once q =
      let total = tally-append (λ x. x == q) fl (sentinel first ts ∷ []) in
      ground (
        arith,
        total,
        t.lists q,
        blocks_at-before q (start first) ts,
        blocks_at-behind _ _ q (start first) 0 ts t.run,
        blocks_at-once _ _ q (start first) 0 ts t.run,
        end-≤ (start first) ts,
      )

  pub IsTiled-Distinct : Distinct (first ∷ with_end fl (sentinel first ts))
  IsTiled-Distinct q = omega (arith, IsTiled-once q)

  -- The addresses of the list, one by one.
  pub IsTiled-member :
      (q : ℕ)
      → occurs q (with_end fl (sentinel first ts)) ≡ occurs q fl + occurs q (sentinel first ts ∷ [])
  IsTiled-member q = tally-append (λ x. x == q) fl (sentinel first ts ∷ [])
