-- ===== src/Sma/Heap/Take.antt =====
-- The memory once a free block has been taken whole.
use pecl_caching_apc.Base.{
  ℕ, ◌+◌, ◌≡◌, ◌≢◌, List, [], ◌∷◌, ◌++◌, arith, length, length-append, ap, sym, ◌∙◌, subst,
}
use pecl_caching_apc.Sma.{Blocks, canary_value, unlink}
use pecl_caching_apc.Sma.Heap.Links.{update, occurs, Linked, Linked-frame}
use pecl_caching_apc.Sma.Heap.Sentinel.{with_end, Linked-take, previous-inner}
use pecl_caching_apc.Sma.Heap.Fields.{
  sizes, prev_sizes, nexts, previouses, canaries, handed_out, handed_out-sizes,
  handed_out-prev_sizes, handed_out-nexts, handed_out-previouses, handed_out-canaries, unlink-sizes,
  unlink-prev_sizes, unlink-nexts, unlink-previouses, unlink-canaries,
}
use pecl_caching_apc.Sma.Heap.Tiles.{
  Tile, free, used, end, out, frees, useds, Apart, end-append, occurs-append, occurs-frees,
  occurs-useds, length-frees,
}
use pecl_caching_apc.Sma.Heap.Runs.{Run, Run-prefix, Run-front, Run-change, Run-retag}
use pecl_caching_apc.Sma.Heap.Tiled.{
  start, sentinel, IsTiled, IsTiled-once, IsTiled-Distinct, IsTiled-member,
}

pub Apart-zero : (ts : List Tile) → Apart 0 ts
Apart-zero [] = tt
Apart-zero (free n ∷ ts) = omega arith
Apart-zero (used n ∷ ts) = tt

module _ {m : Blocks} {first : ℕ} (us : List Tile) (n : ℕ) (vs : List Tile) (xs ys : List ℕ)
    (t : IsTiled m first (us ++ free n ∷ vs) (xs ++ end (start first) us ∷ ys)) where
  -- The run from the block on.
  pub here : Run (sizes m) (prev_sizes m) (end (start first) us) (out 0 us) (free n ∷ vs)
  here = Run-prefix _ _ (start first) 0 us (free n ∷ vs) t.run

  pub same_end : sentinel first (us ++ used n ∷ vs) ≡ sentinel first (us ++ free n ∷ vs)
  same_end =
      end-append (start first) us (used n ∷ vs) ∙ sym (end-append (start first) us (free n ∷ vs))

  -- The block leaves the list and the free blocks.
  taken_lists : (q : ℕ) → occurs q (xs ++ ys) ≡ occurs q (frees (start first) (us ++ used n ∷ vs))
  taken_lists q = ground (
    arith,
    t.lists q,
    occurs-append q xs ys,
    occurs-append q xs (end (start first) us ∷ ys),
    occurs-frees q (start first) us (used n ∷ vs),
    occurs-frees q (start first) us (free n ∷ vs),
  )

  pub taken_useds :
      (q : ℕ)
      → occurs q (useds (start first) (us ++ used n ∷ vs))
        ≡ occurs q (useds (start first) (us ++ free n ∷ vs)) + occurs q (end (start first) us ∷ [])
  taken_useds q = ground (
    arith,
    occurs-useds q (start first) us (used n ∷ vs),
    occurs-useds q (start first) us (free n ∷ vs),
  )

  taken_length : length (xs ++ ys) ≡ length (frees (start first) (us ++ used n ∷ vs))
  taken_length = omega (
    arith,
    t.as_many,
    length-append xs ys,
    length-append xs (end (start first) us ∷ ys),
    length-frees (start first) us (used n ∷ vs),
    length-frees (start first) us (free n ∷ vs),
  )

  -- The pointers of the block lead to neighbours in the list.
  pub list_member :
      (q : ℕ)
      → occurs q
          (first ∷ with_end (xs ++ end (start first) us ∷ ys) (sentinel first (us ++ free n ∷ vs)))
        ≡ occurs q (first ∷ xs)
          + occurs q (end (start first) us ∷ [])
          + occurs q ys
          + occurs q (sentinel first (us ++ free n ∷ vs) ∷ [])
  list_member q = ground (arith, IsTiled-member t q, occurs-append q xs (end (start first) us ∷ ys))

  abbrev pub cur : ℕ
  cur = end (start first) us

  abbrev pub prv : ℕ
  prv = previouses m cur

  unfoldable pub taken : Blocks
  taken = handed_out cur (unlink prv cur m)

  pub block_size_of : sizes m cur ≡ n
  block_size_of = here.1

  prv_other : prv ≢ cur
  prv_other e = absurd (
      ground (
        arith,
        previous-inner _ _ first cur _ xs ys t.links,
        IsTiled-Distinct t cur,
        list_member cur,
      ))

  module _ (q : ℕ) where
    taken-sizes : sizes taken q ≡ sizes m q
    unfolding taken
    taken-sizes = handed_out-sizes cur _ q ∙ unlink-sizes prv cur m q

    taken-prev_sizes : prev_sizes taken q ≡ update (prev_sizes m) (cur + n) 0 q
    unfolding taken
    taken-prev_sizes =
        handed_out-prev_sizes cur _ q
        ∙ unlink-prev_sizes prv cur m q
        ∙ ap (λ s. update (prev_sizes m) (cur + s) 0 q) block_size_of

    taken-nexts : nexts taken q ≡ update (update (nexts m) prv (nexts m cur)) cur 0 q
    unfolding taken
    taken-nexts =
        ground (arith, handed_out-nexts cur (unlink prv cur m) q, unlink-nexts prv cur m q)

    taken-previouses : previouses taken q ≡ update (previouses m) (nexts m cur) prv q
    unfolding taken
    taken-previouses = handed_out-previouses cur _ q ∙ unlink-previouses prv cur m q prv_other

    taken-canaries : canaries taken q ≡ update (canaries m) cur canary_value q
    unfolding taken
    taken-canaries =
        ground (arith, handed_out-canaries cur (unlink prv cur m) q, unlink-canaries prv cur m q)

  taken_run : Run (sizes taken) (prev_sizes taken) (start first) 0 (us ++ used n ∷ vs)
  taken_run =
      let (tag, size, large, apart, behind_run) = here in
      Run-change (sizes m) (prev_sizes m) _ _ (start first) 0 us (used n ∷ vs)
        (Run-front _ _ (start first) 0 us (free n ∷ vs) t.run) (λ q i. taken-sizes q)
        (λ q i. ground (arith, taken-prev_sizes q))
        (
          ground (arith, taken-prev_sizes cur, tag, large),
          taken-sizes cur ∙ size,
          large,
          tt,
          Run-retag (sizes m) (prev_sizes m) _ _ (cur + n) n 0 vs behind_run (λ q i. taken-sizes q)
              (λ q i. ground (arith, taken-prev_sizes q))
              (ground (arith, taken-prev_sizes (cur + n))) (Apart-zero vs),
        )

  taken_links :
      Linked
        (nexts taken)
        (previouses taken)
        first
        (with_end (xs ++ ys) (sentinel first (us ++ free n ∷ vs)))
  taken_links =
      Linked-frame _ _ _ _ first _
        (λ q i. ground (
          arith,
          taken-nexts q,
          list_member cur,
          IsTiled-Distinct t cur,
          occurs-append q (xs ++ ys) (sentinel first (us ++ free n ∷ vs) ∷ []),
          occurs-append q xs ys,
        ))
        (λ q i. taken-previouses q) (Linked-take _ _ first cur _ xs ys (IsTiled-Distinct t) t.links)

  pub IsTiled-taken : IsTiled taken first (us ++ used n ∷ vs) (xs ++ ys)
  IsTiled-taken = record {
    run = taken_run;
    last_size = taken-sizes _ ∙ ap (sizes m) same_end ∙ t.last_size;
    links =
        subst (λ l. Linked (nexts taken) (previouses taken) first (with_end (xs ++ ys) l))
          (sym same_end) taken_links;
    lists = taken_lists;
    as_many = taken_length;
    unlinked = λ q i. ground (
      arith,
      taken-nexts q,
      taken_useds q,
      t.unlinked q,
      list_member q,
      IsTiled-once t q,
      previous-inner _ _ first cur _ xs ys t.links,
    );
    checks = λ q i. ground (
      arith,
      taken-canaries q,
      t.checks q,
      occurs-append q xs ys,
      occurs-append q xs (cur ∷ ys),
      taken_useds q,
    );
  }
