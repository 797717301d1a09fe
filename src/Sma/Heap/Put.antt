-- ===== src/Sma/Heap/Put.antt =====
-- The block that `sma_deallocate` puts in front of the free list.
use pecl_caching_apc.Base.{ℕ, ◌+◌, ◌≡◌, ◌≢◌, List, ◌∷◌, ◌++◌, arith, length, ap, sym, ◌∙◌, subst}
use pecl_caching_apc.Sma.{Blocks, write, set_prev_size, set_fnext, set_fprev}
use pecl_caching_apc.Sma.Deallocate.{put_first}
use pecl_caching_apc.Sma.Heap.Links.{update, occurs, Linked, Linked-frame}
use pecl_caching_apc.Sma.Heap.Sentinel.{with_end, Linked-add}
use pecl_caching_apc.Sma.Heap.Fields.{sizes, prev_sizes, nexts, previouses, canaries}
use pecl_caching_apc.Sma.Heap.Tiles.{
  Tile, free, end, out, frees, useds, Apart, end-≤, end-append, occurs-frees, occurs-useds,
  length-frees,
}
use pecl_caching_apc.Sma.Heap.Runs.{Run, Run-change, Run-retag, Run-end}
use pecl_caching_apc.Sma.Heap.Tiled.{start, sentinel, IsTiled}
use pecl_caching_apc.Sma.Heap.Join.{IsParted, IsParted-once, IsParted-Distinct}

update-other : (f : ℕ → ℕ) (p v q : ℕ) → q ≢ p → update f p v q ≡ f q
update-other f p v q h = ground (arith)

module _ (first cur : ℕ) (m : Blocks) (q : ℕ) where
  put-sizes : sizes (put_first first cur m) q ≡ sizes m q
  unfolding put_first set_prev_size set_fnext set_fprev write
  put-sizes = ground (arith)

  put-prev_sizes :
      prev_sizes (put_first first cur m) q
      ≡ update (prev_sizes m) (cur + sizes m cur) (sizes m cur) q
  unfolding put_first set_prev_size set_fnext set_fprev write
  put-prev_sizes = ground (arith)

  put-nexts :
      nexts (put_first first cur m) q ≡ update (update (nexts m) cur (nexts m first)) first cur q
  unfolding put_first set_prev_size set_fnext set_fprev write
  put-nexts = ground (arith)

  put-previouses :
      first ≢ cur
      → previouses (put_first first cur m) q
        ≡ update (update (previouses m) cur first) (nexts m first) cur q
  unfolding put_first set_prev_size set_fnext set_fprev write
  put-previouses h = ground (arith)

  put-canaries : canaries (put_first first cur m) q ≡ canaries m q
  unfolding put_first set_prev_size set_fnext set_fprev write
  put-canaries = ground (arith)

-- The block is free again, and first in the list.
module _ (m : Blocks) (first : ℕ) (us : List Tile) (n stop j : ℕ) (vs : List Tile) (fl : List ℕ)
    (t : IsParted m first us (end (start first) us) n stop j vs fl) (before : out 0 us ≡ 0)
    (apart : Apart n vs) where
  abbrev cur : ℕ
  cur = end (start first) us

  pub put_place : sentinel first (us ++ free n ∷ vs) ≡ end stop vs
  put_place = end-append (start first) us (free n ∷ vs) ∙ ap (λ p. end p vs) t.stops

  put_tag : (q : ℕ) → prev_sizes (put_first first cur m) q ≡ update (prev_sizes m) stop n q
  put_tag q = let size = t.size in ground (arith, put-prev_sizes first cur m q, t.stops)

  put_head : prev_sizes (put_first first cur m) cur ≡ out 0 us
  put_head =
      let stops = t.stops in
      let large = t.large in
      put_tag cur
      ∙ update-other (prev_sizes m) stop n cur (omega arith)
      ∙ Run-end _ _ (start first) 0 us t.front

  put_run :
      Run
        (sizes (put_first first cur m))
        (prev_sizes (put_first first cur m))
        (start first)
        0
        (us ++ free n ∷ vs)
  put_run =
      let large = t.large in
      let stops = t.stops in
      Run-change (sizes m) (prev_sizes m) _ _ (start first) 0 us (free n ∷ vs) t.front
        (λ q i. put-sizes first cur m q) (λ q i. ground (arith, put_tag q))
        (
          put_head,
          put-sizes first cur m cur ∙ t.size,
          large,
          before,
          subst
              (λ p. Run (sizes (put_first first cur m)) (prev_sizes (put_first first cur m)) p n vs)
              (sym stops)
              (Run-retag (sizes m) (prev_sizes m) _ _ stop j n vs t.back
                (λ q i. put-sizes first cur m q) (λ q i. ground (arith, put_tag q))
                (ground (arith, put_tag stop)) apart),
        )

  put_lists : (q : ℕ) → occurs q (cur ∷ fl) ≡ occurs q (frees (start first) (us ++ free n ∷ vs))
  put_lists q = omega (
    arith,
    t.lists q,
    occurs-frees q (start first) us (free n ∷ vs),
    ap (λ p. occurs q (frees p vs)) t.stops,
  )

  pub put_useds :
      (q : ℕ)
      → occurs q (useds (start first) (us ++ free n ∷ vs))
        ≡ occurs q (useds (start first) us) + occurs q (useds stop vs)
  put_useds q =
      occurs-useds q (start first) us (free n ∷ vs)
      ∙ ap (λ p. occurs q (useds (start first) us) + occurs q (useds p vs)) t.stops

  other : first ≢ cur
  other e = absurd (omega (arith, end-≤ (start first) us))

  fresh : occurs cur (first ∷ with_end fl (end stop vs)) ≡ 0
  fresh = ground (arith, IsParted-once t cur)

  pub IsTiled-put : IsTiled (put_first first cur m) first (us ++ free n ∷ vs) (cur ∷ fl)
  IsTiled-put = record {
    run = put_run;
    last_size = put-sizes first cur m _ ∙ ap (sizes m) put_place ∙ t.last_size;
    links =
        subst
          (λ l.
            Linked (nexts (put_first first cur m)) (previouses (put_first first cur m)) first
              (cur ∷ with_end fl l))
          (sym put_place)
          (Linked-frame _ _ _ _ first (cur ∷ with_end fl (end stop vs))
            (λ q i. put-nexts first cur m q) (λ q i. put-previouses first cur m q (other))
            (Linked-add _ _ first cur (end stop vs) fl (IsParted-Distinct t) fresh
              (omega (arith, end-≤ (start first) us)) t.links));
    lists = put_lists;
    as_many = omega (
      arith,
      t.as_many,
      length-frees (start first) us (free n ∷ vs),
      ap (λ p. length (frees p vs)) t.stops,
    );
    unlinked = λ q i.
        ground (arith, put-nexts first cur m q, t.unlinked q, put_useds q, IsParted-once t q);
    checks = λ q i. ground (arith, put-canaries first cur m q, t.checks q, put_useds q);
  }
