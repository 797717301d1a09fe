-- ===== src/Sma/Heap/Open.antt =====
-- `sma_deallocate` in a segment whose memory is tiled: the joins with the neighbours.
use pecl_caching_apc.Base.{
  ℕ, ◌+◌, ◌-◌, ◌≡◌, List, [], ◌∷◌, ◌++◌, Option, some, arith, ◌==◌, ap, sym, ◌∙◌, subst, false,
  refl,
}
use pecl_caching_apc.Sma.{Blocks}
use pecl_caching_apc.Sma.Deallocate.{join_prev}
use pecl_caching_apc.Sma.Heap.Links.{occurs, Splits, splits, occurs-Splits}
use pecl_caching_apc.Sma.Heap.Fields.{prev_sizes}
use pecl_caching_apc.Sma.Heap.Tiles.{
  Tile, free, used, end, out, out-append, useds, free_bytes, free_bytes-append, Apart, occurs-frees,
  occurs-useds, Last, no_block, last_block, last_of,
}
use pecl_caching_apc.Sma.Heap.Runs.{Run-end}
use pecl_caching_apc.Sma.Heap.Tiled.{start}
use pecl_caching_apc.Sma.Heap.Join.{absorb, IsParted}
use pecl_caching_apc.Sma.Heap.Merge.{merged_before, prv_run, meets}

-- What the joins keep: the free bytes with the block's own, the sentinel, and the used blocks.
pub record IsOpen (m : Blocks) (first total last : ℕ) (in_use : ℕ → ℕ) (us : List Tile)
    (cur n stop j : ℕ) (vs : List Tile) (fl : List ℕ) : Type 0 where
  pub parted : IsParted m first us cur n stop j vs fl
  pub bytes : n + free_bytes us + free_bytes vs ≡ total
  pub ends : end stop vs ≡ last
  pub uses : (q : ℕ) → occurs q (useds (start first) us) + occurs q (useds stop vs) ≡ in_use q

module _ (first total last : ℕ) (in_use : ℕ → ℕ) where
  -- No free block lies before the block.
  pub data AfterPrev : ℕ × Blocks → Type 0 where
    after_prev :
        (m : Blocks) (us : List Tile) (cur n stop j : ℕ) (vs : List Tile) (fl : List ℕ)
        → IsOpen m first total last in_use us cur n stop j vs fl
        → out 0 us ≡ 0
        → AfterPrev (cur, m)

  -- Nor behind it.
  pub data AfterNext (cur : ℕ) : Option Blocks → Type 0 where
    after_next :
        (m : Blocks) (us : List Tile) (n stop j : ℕ) (vs : List Tile) (fl : List ℕ)
        → IsOpen m first total last in_use us cur n stop j vs fl
        → out 0 us ≡ 0
        → Apart n vs
        → AfterNext cur (some m)

  alone :
      (m : Blocks) (us : List Tile) (cur n stop j : ℕ) (vs : List Tile) (fl : List ℕ)
      → IsOpen m first total last in_use us cur n stop j vs fl
      → out 0 us ≡ 0
      → AfterPrev (join_prev cur m)
  unfolding join_prev
  alone m us cur n stop j vs fl h none_before =
      let tag : prev_sizes m cur ≡ 0 =
        sym (ap (prev_sizes m) h.parted.place)
        ∙ Run-end _ _ (start first) 0 us h.parted.front
        ∙ none_before in
      rw tag (after_prev m us cur n stop j vs fl h none_before)

  with_prev :
      (m : Blocks) (us : List Tile) (k cur n stop j : ℕ) (vs : List Tile) (fl : List ℕ)
      → IsOpen m first total last in_use (us ++ free k ∷ []) cur n stop j vs fl
      → Splits (end (start first) us) fl
      → AfterPrev (join_prev cur m)
  unfolding join_prev
  with_prev m us k cur n stop j vs _ h (splits xs ys) =
      let t = h.parted in
      let (tag₀, k_size, k_large, apart, tag) = prv_run m first us k cur n stop j vs xs ys t in
      let meet = meets m first us k cur n stop j vs xs ys t in
      let tag' : prev_sizes m cur ≡ k = sym (ap (prev_sizes m) meet) ∙ tag in
      let at : cur - k ≡ end (start first) us = omega (arith, meet) in
      let test : (k == 0) ≡ false = ground (arith, k_large) in
      rw (tag', test)
        (subst (λ p. AfterPrev (p, absorb p p cur m)) (sym at)
          (after_prev _ us _ (k + n) stop j vs (xs ++ ys)
            record {
              parted = merged_before m first us k cur n stop j vs xs ys t;
              bytes = omega (arith, h.bytes, free_bytes-append us (free k ∷ []));
              ends = h.ends;
              uses = λ q. omega (arith, h.uses q, occurs-useds q (start first) us (free k ∷ []));
            }
            apart))

  pub join_prev-AfterPrev :
      (m : Blocks) (us : List Tile) (cur n stop j : ℕ) (vs : List Tile) (fl : List ℕ)
      → IsOpen m first total last in_use us cur n stop j vs fl
      → AfterPrev (join_prev cur m)
  join_prev-AfterPrev m us cur n stop j vs fl h = go us (last_of us) h
    where
      go :
          (us : List Tile)
          → Last us
          → IsOpen m first total last in_use us cur n stop j vs fl
          → AfterPrev (join_prev cur m)
      go _ no_block h = alone m [] cur n stop j vs fl h refl
      go _ (last_block us (used k)) h =
          alone m (us ++ used k ∷ []) cur n stop j vs fl h (out-append 0 us (used k ∷ []))
      go _ (last_block us (free k)) h = with_prev m us k cur n stop j vs fl h (
          occurs-Splits (end (start first) us) fl (
            ground (
              arith,
              h.parted.lists (end (start first) us),
              occurs-frees (end (start first) us) (start first) us (free k ∷ []),
            )))
