-- ===== src/Sma/Heap/Cut.antt =====
-- The memory once a free block has been cut in two.
use pecl_caching_apc.Base.{
  ℕ, ◌+◌, ◌-◌, ◌≤◌, ◌≡◌, ◌≢◌, List, [], ◌∷◌, ◌++◌, arith, length, length-append, refl, ap, sym, ◌∙◌,
  subst,
}
use pecl_caching_apc.Sma.{Blocks, canary_value, split}
use pecl_caching_apc.Sma.Heap.Links.{update, occurs, Linked, Linked-frame}
use pecl_caching_apc.Sma.Heap.Sentinel.{with_end, Linked-exchange, next-inner, previous-inner}
use pecl_caching_apc.Sma.Heap.Fields.{
  sizes, prev_sizes, nexts, previouses, canaries, handed_out, handed_out-sizes,
  handed_out-prev_sizes, handed_out-nexts, handed_out-previouses, handed_out-canaries, split-sizes,
  split-prev_sizes, split-nexts, split-previouses, split-canaries,
}
use pecl_caching_apc.Sma.Heap.Tiles.{
  Tile, free, used, end, frees, useds, end-≤, end-append, occurs-append, occurs-frees, occurs-useds,
  length-frees, blocks_at-before,
}
use pecl_caching_apc.Sma.Heap.Runs.{
  Run, Run-used_next, Run-change, Run-retag, blocks_at-behind, Run-front,
}
use pecl_caching_apc.Sma.Heap.Tiled.{
  start, sentinel, IsTiled, IsTiled-once, IsTiled-Distinct, IsTiled-member,
}
use pecl_caching_apc.Sma.Heap.Take.{here, list_member, block_size_of}

module _ {m : Blocks} {first : ℕ} (us : List Tile) (r rest : ℕ) (vs : List Tile) (xs ys : List ℕ)
    (t : IsTiled m first (us ++ free (r + rest) ∷ vs) (xs ++ end (start first) us ∷ ys))
    (large : 40 ≤ r) (left : 40 ≤ rest) where
  abbrev cur : ℕ
  cur = end (start first) us

  abbrev pub after : List Tile
  after = us ++ used r ∷ free rest ∷ vs

  further : cur + r + rest ≡ cur + (r + rest)
  further = omega arith

  pub same_end : sentinel first after ≡ sentinel first (us ++ free (r + rest) ∷ vs)
  same_end =
      end-append (start first) us (used r ∷ free rest ∷ vs)
      ∙ ap (λ p. end p vs) further
      ∙ sym (end-append (start first) us (free (r + rest) ∷ vs))

  cut_lists : (q : ℕ) → occurs q (xs ++ (cur + r) ∷ ys) ≡ occurs q (frees (start first) after)
  cut_lists q = ground (
    arith,
    t.lists q,
    occurs-append q xs ((cur + r) ∷ ys),
    occurs-append q xs (cur ∷ ys),
    occurs-frees q (start first) us (used r ∷ free rest ∷ vs),
    occurs-frees q (start first) us (free (r + rest) ∷ vs),
    ap (λ p. occurs q (frees p vs)) further,
  )

  pub cut_useds :
      (q : ℕ)
      → occurs q (useds (start first) after)
        ≡ occurs q (useds (start first) (us ++ free (r + rest) ∷ vs)) + occurs q (cur ∷ [])
  cut_useds q = ground (
    arith,
    occurs-useds q (start first) us (used r ∷ free rest ∷ vs),
    occurs-useds q (start first) us (free (r + rest) ∷ vs),
    ap (λ p. occurs q (useds p vs)) further,
  )

  cut_length : length (xs ++ (cur + r) ∷ ys) ≡ length (frees (start first) after)
  cut_length = omega (
    arith,
    t.as_many,
    length-append xs ((cur + r) ∷ ys),
    length-append xs (cur ∷ ys),
    length-frees (start first) us (used r ∷ free rest ∷ vs),
    length-frees (start first) us (free (r + rest) ∷ vs),
    ap (λ p. length (frees p vs)) further,
  )

  -- No block starts inside the block that is cut.
  inside :
      (occurs
          (cur + r)
          (first ∷ with_end (xs ++ cur ∷ ys) (sentinel first (us ++ free (r + rest) ∷ vs)))
        ≡ 0)
      × (occurs (cur + r) (useds (start first) (us ++ free (r + rest) ∷ vs)) ≡ 0)
  inside =
      let (_, _, _, _, behind_run) = here us (r + rest) vs xs ys t in
      let front =
        blocks_at-behind _ _ (cur + r) (start first) 0 us
          (Run-front _ _ (start first) 0 us (free (r + rest) ∷ vs) t.run) (omega arith) in
      let back = blocks_at-before (cur + r) (cur + (r + rest)) vs (omega arith) in
      let lies = end-≤ (start first) us in
      let lies_behind = end-≤ (cur + (r + rest)) vs in
      let total = end-append (start first) us (free (r + rest) ∷ vs) in
      (
        ground (
          arith,
          IsTiled-member t (cur + r),
          t.lists (cur + r),
          occurs-frees (cur + r) (start first) us (free (r + rest) ∷ vs),
        ),
        ground (arith, occurs-useds (cur + r) (start first) us (free (r + rest) ∷ vs)),
      )

  unfoldable pub cut : Blocks
  cut = handed_out cur (split cur r m)

  rest_of : sizes m cur - r ≡ rest
  rest_of = omega (arith, block_size_of us (r + rest) vs xs ys t)

  next_other : nexts m cur ≢ cur + r
  next_other e = absurd (
      ground (
        arith,
        next-inner _ _ first cur _ xs ys t.links,
        inside.0,
        occurs-append (cur + r) ys (sentinel first (us ++ free (r + rest) ∷ vs) ∷ []),
        list_member us (r + rest) vs xs ys t (cur + r),
      ))

  module _ (q : ℕ) where
    cut-sizes : sizes cut q ≡ update (update (sizes m) cur r) (cur + r) rest q
    unfolding cut
    cut-sizes =
        handed_out-sizes cur _ q
        ∙ split-sizes cur r m q (omega arith)
        ∙ ap (λ s. update (update (sizes m) cur r) (cur + r) s q) rest_of

    cut-prev_sizes :
        prev_sizes cut q ≡ update (update (prev_sizes m) (cur + r) 0) (cur + r + rest) rest q
    unfolding cut
    cut-prev_sizes =
        handed_out-prev_sizes cur _ q
        ∙ split-prev_sizes cur r m q (omega arith)
        ∙ ap (λ s. update (update (prev_sizes m) (cur + r) 0) (cur + r + s) s q) rest_of

    cut-nexts :
        nexts cut q
        ≡ update
            (update (update (nexts m) (cur + r) (nexts m cur)) (previouses m cur) (cur + r))
            cur
            0
            q
    unfolding cut
    cut-nexts = ground (
      arith,
      handed_out-nexts cur (split cur r m) q,
      split-nexts cur r m q (omega arith) next_other,
    )

    cut-previouses :
        previouses cut q
        ≡ update (update (previouses m) (cur + r) (previouses m cur)) (nexts m cur) (cur + r) q
    unfolding cut
    cut-previouses = handed_out-previouses cur _ q ∙ split-previouses cur r m q (omega arith)

    cut-canaries :
        canaries cut q ≡ update (update (canaries m) (cur + r) canary_value) cur canary_value q
    unfolding cut
    cut-canaries =
        ground
          (arith, handed_out-canaries cur (split cur r m) q, split-canaries cur r m q (omega arith))

  cut_run : Run (sizes cut) (prev_sizes cut) (start first) 0 after
  cut_run =
      let (tag, size, _, apart, behind_run) = here us (r + rest) vs xs ys t in
      Run-change (sizes m) (prev_sizes m) _ _ (start first) 0 us (used r ∷ free rest ∷ vs)
        (Run-front _ _ (start first) 0 us (free (r + rest) ∷ vs) t.run)
        (λ q i. ground (arith, cut-sizes q)) (λ q i. ground (arith, cut-prev_sizes q))
        (
          ground (arith, cut-prev_sizes cur, tag),
          ground (arith, cut-sizes cur),
          large,
          tt,
          (
            ground (arith, cut-prev_sizes (cur + r)),
            ground (arith, cut-sizes (cur + r)),
            left,
            refl,
            subst (λ p. Run (sizes cut) (prev_sizes cut) p rest vs) (sym further)
                (Run-retag (sizes m) (prev_sizes m) _ _ (cur + (r + rest)) (r + rest) rest vs
                  behind_run (λ q i. ground (arith, cut-sizes q))
                  (λ q i. ground (arith, cut-prev_sizes q))
                  (ground (arith, cut-prev_sizes (cur + (r + rest))))
                  (Run-used_next _ _ _ _ vs rest (omega arith) behind_run)),
          ),
        )

  cut_links :
      Linked
        (nexts cut)
        (previouses cut)
        first
        (with_end (xs ++ (cur + r) ∷ ys) (sentinel first (us ++ free (r + rest) ∷ vs)))
  cut_links =
      Linked-frame _ _ _ _ first _
        (λ q i. ground (
          arith,
          cut-nexts q,
          list_member us (r + rest) vs xs ys t cur,
          IsTiled-Distinct t cur,
          occurs-append q (xs ++ (cur + r) ∷ ys) (sentinel first (us ++ free (r + rest) ∷ vs) ∷ []),
          occurs-append q xs ((cur + r) ∷ ys),
        ))
        (λ q i. cut-previouses q)
        (Linked-exchange _ _ first cur _ xs (cur + r) ys (IsTiled-Distinct t) (inside.0)
          (omega arith) t.links)

  pub IsTiled-cut : IsTiled cut first after (xs ++ (cur + r) ∷ ys)
  IsTiled-cut = record {
    run = cut_run;
    last_size = ground (
      arith,
      cut-sizes (sentinel first after),
      t.last_size,
      ap (sizes m) same_end,
      same_end,
      end-append (start first) us (free (r + rest) ∷ vs),
      end-≤ (cur + (r + rest)) vs,
    );
    links =
        subst (λ l. Linked (nexts cut) (previouses cut) first (with_end (xs ++ (cur + r) ∷ ys) l))
          (sym same_end) cut_links;
    lists = cut_lists;
    as_many = cut_length;
    unlinked = λ q i. ground (
      arith,
      cut-nexts q,
      cut_useds q,
      t.unlinked q,
      list_member us (r + rest) vs xs ys t q,
      IsTiled-once t q,
      inside.1,
      previous-inner _ _ first cur _ xs ys t.links,
    );
    checks = λ q i. ground (
      arith,
      cut-canaries q,
      t.checks q,
      occurs-append q xs ((cur + r) ∷ ys),
      occurs-append q xs (cur ∷ ys),
      cut_useds q,
    );
  }
