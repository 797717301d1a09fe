-- ===== src/Sma/Heap/Release.antt =====
-- `sma_deallocate` in a segment whose memory is tiled: the join with the block behind, and the
-- whole function.
use pecl_caching_apc.Base.{ℕ, ◌+◌, ◌≡◌, List, [], ◌∷◌, ◌++◌, arith, ◌==◌, ap, ◌∙◌, true, false}
use pecl_caching_apc.Sma.{Blocks}
use pecl_caching_apc.Sma.Deallocate.{join_next}
use pecl_caching_apc.Sma.Heap.Links.{Splits, splits, occurs-Splits}
use pecl_caching_apc.Sma.Heap.Sentinel.{next-end, next-some}
use pecl_caching_apc.Sma.Heap.Fields.{sizes, prev_sizes, nexts}
use pecl_caching_apc.Sma.Heap.Tiles.{Tile, free, used, out, Apart}
use pecl_caching_apc.Sma.Heap.Runs.{Run-tag, Run-used_next}
use pecl_caching_apc.Sma.Heap.Merge.{merged_behind}
use pecl_caching_apc.Sma.Heap.Open.{IsOpen, AfterNext, after_next}

module _ (first total last : ℕ) (in_use : ℕ → ℕ) where
  -- No free block lies behind the block.
  no_next :
      (m : Blocks) (us : List Tile) (cur n stop j : ℕ) (vs : List Tile) (fl : List ℕ)
      → IsOpen m first total last in_use us cur n stop j vs fl
      → out 0 us ≡ 0
      → Apart n vs
      → nexts m stop ≡ 0
      → AfterNext first total last in_use cur (join_next cur m)
  unfolding join_next
  no_next m us cur n stop j vs fl h before apart null =
      let place : cur + sizes m cur ≡ stop = ap (λ s. cur + s) h.parted.size ∙ h.parted.stops in
      rw (place, null) (after_next m us n stop j vs fl h before apart)

  with_next :
      (m : Blocks) (us : List Tile) (cur n stop j k : ℕ) (vs : List Tile) (fl : List ℕ)
      → IsOpen m first total last in_use us cur n stop j (free k ∷ vs) fl
      → out 0 us ≡ 0
      → Splits stop fl
      → AfterNext first total last in_use cur (join_next cur m)
  unfolding join_next
  with_next m us cur n stop j k vs _ h before (splits xs ys) =
      let t = h.parted in
      let (tag₀, k_size, k_large, apart, behind_run) = t.back in
      let place : cur + sizes m cur ≡ stop = ap (λ s. cur + s) t.size ∙ t.stops in
      let linked : (nexts m stop == 0) ≡ false =
        ground (arith, next-some _ _ first stop _ xs ys t.links) in
      let tag : (prev_sizes m (stop + k) == k) ≡ true =
        ground (arith, Run-tag _ _ (stop + k) k vs behind_run) in
      rw (place, linked, k_size, tag)
        (after_next _ us (n + k) (stop + k) k vs (xs ++ ys)
          record {
            parted = merged_behind m first us cur n stop j k vs xs ys t;
            bytes = omega (arith, h.bytes);
            ends = h.ends;
            uses = h.uses;
          }
          before (Run-used_next _ _ (stop + k) k vs (n + k) (omega arith) behind_run))

  pub join_next-AfterNext :
      (m : Blocks) (us : List Tile) (cur n stop j : ℕ) (vs : List Tile) (fl : List ℕ)
      → IsOpen m first total last in_use us cur n stop j vs fl
      → out 0 us ≡ 0
      → AfterNext first total last in_use cur (join_next cur m)
  join_next-AfterNext m us cur n stop j [] fl h before =
      no_next m us cur n stop j [] fl h before tt (next-end _ _ first stop fl h.parted.links)
  join_next-AfterNext m us cur n stop j (used k ∷ vs) fl h before =
      no_next m us cur n stop j (used k ∷ vs) fl h before tt
        (h.parted.unlinked stop (ground (arith)))
  join_next-AfterNext m us cur n stop j (free k ∷ vs) fl h before =
      with_next m us cur n stop j k vs fl h before
        (occurs-Splits stop fl (ground (arith, h.parted.lists stop)))
