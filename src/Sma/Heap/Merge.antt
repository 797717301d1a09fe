-- ===== src/Sma/Heap/Merge.antt =====
-- The two joins of `sma_deallocate`.
use pecl_caching_apc.Base.{
  ℕ, ◌+◌, ◌≡◌, ◌≢◌, List, [], ◌∷◌, ◌++◌, arith, length-append, sym, ◌∙◌, refl,
}
use pecl_caching_apc.Sma.{Blocks}
use pecl_caching_apc.Sma.Heap.Links.{occurs}
use pecl_caching_apc.Sma.Heap.Sentinel.{previous-inner}
use pecl_caching_apc.Sma.Heap.Fields.{sizes, prev_sizes, nexts}
use pecl_caching_apc.Sma.Heap.Tiles.{
  Tile, free, end, out, frees, useds, end-≤, end-append, occurs-append, occurs-frees, occurs-useds,
  length-frees,
}
use pecl_caching_apc.Sma.Heap.Runs.{Run, Run-front, Run-frame, Run-prefix}
use pecl_caching_apc.Sma.Heap.Tiled.{start}
use pecl_caching_apc.Sma.Heap.Join.{
  absorb, absorb-sizes, absorb-prev_sizes, absorb-nexts, absorb-canaries, absorb-links, next-other,
  IsParted, IsParted-once, IsParted-Distinct, IsParted-member,
}

-- With the free block before it.
module _ (m : Blocks) (first : ℕ) (us : List Tile) (k cur n stop j : ℕ) (vs : List Tile)
    (xs ys : List ℕ)
    (t : IsParted m first
      (us ++ free k ∷ [])
      cur
      n
      stop
      j
      vs
      (xs ++ end (start first) us ∷ ys)) where
  abbrev pub prv : ℕ
  prv = end (start first) us

  pub prv_run : Run (sizes m) (prev_sizes m) prv (out 0 us) (free k ∷ [])
  prv_run = Run-prefix _ _ (start first) 0 us (free k ∷ []) t.front

  pub meets : prv + k ≡ cur
  meets = sym (end-append (start first) us (free k ∷ [])) ∙ t.place

  other : nexts m prv ≢ prv
  other = next-other m first (end stop vs) prv xs ys t.links (IsParted-Distinct t)

  members :
      (q : ℕ)
      → (occurs q (xs ++ prv ∷ ys) ≡ occurs q (xs ++ ys) + occurs q (prv ∷ []))
        × (occurs q (frees (start first) (us ++ free k ∷ []))
            ≡ occurs q (frees (start first) us) + occurs q (prv ∷ []))
        × (occurs q (useds (start first) (us ++ free k ∷ [])) ≡ occurs q (useds (start first) us))
  members q = (
    ground (arith, occurs-append q xs (prv ∷ ys), occurs-append q xs ys),
    ground (arith, occurs-frees q (start first) us (free k ∷ [])),
    ground (arith, occurs-useds q (start first) us (free k ∷ [])),
  )

  pub merged_before : IsParted (absorb prv prv cur m) first us prv (k + n) stop j vs (xs ++ ys)
  merged_before =
      let (tag, k_size, k_large, apart, _) = prv_run in
      let n_size = t.size in
      let n_large = t.large in
      let stops = t.stops in
      record {
        place = refl;
        stops = omega (arith, meets, stops);
        large = omega (arith, k_large);
        front =
            Run-frame (sizes m) (prev_sizes m) _ _ (start first) 0 us
              (Run-front _ _ (start first) 0 us (free k ∷ []) t.front)
              (λ q i l. ground (arith, absorb-sizes prv prv cur m q))
              (λ q i l. absorb-prev_sizes prv prv cur m q);
        size = ground (arith, absorb-sizes prv prv cur m prv, k_size, n_size);
        back =
            Run-frame (sizes m) (prev_sizes m) _ _ stop j vs t.back
              (λ q i l. ground (arith, absorb-sizes prv prv cur m q, meets))
              (λ q i l. absorb-prev_sizes prv prv cur m q);
        last_size =
            ground
              (arith, absorb-sizes prv prv cur m (end stop vs), t.last_size, end-≤ stop vs, meets);
        links = absorb-links m first (end stop vs) prv xs ys t.links (IsParted-Distinct t) prv cur;
        lists = λ q. omega (arith, t.lists q, members q);
        as_many = omega (
          arith,
          t.as_many,
          length-append xs (prv ∷ ys),
          length-append xs ys,
          length-frees (start first) us (free k ∷ []),
        );
        unlinked = λ q i. ground (
          arith,
          absorb-nexts prv prv cur m q other,
          t.unlinked q,
          members q,
          IsParted-once t q,
          IsParted-member t q,
          previous-inner _ _ first prv _ xs ys t.links,
          occurs-append q xs (prv ∷ ys),
        );
        checks = λ q i. ground (
          arith,
          absorb-canaries prv prv cur m q,
          t.checks q,
          members q,
          IsParted-once t q,
          IsParted-member t q,
        );
      }

-- With the free block behind it.
module _ (m : Blocks) (first : ℕ) (us : List Tile) (cur n stop j k : ℕ) (vs : List Tile)
    (xs ys : List ℕ) (t : IsParted m first us cur n stop j (free k ∷ vs) (xs ++ stop ∷ ys)) where
  behind_other : nexts m stop ≢ stop
  behind_other = next-other m first (end (stop + k) vs) stop xs ys t.links (IsParted-Distinct t)

  behind_members : (q : ℕ) → occurs q (xs ++ stop ∷ ys) ≡ occurs q (xs ++ ys) + occurs q (stop ∷ [])
  behind_members q = ground (arith, occurs-append q xs (stop ∷ ys), occurs-append q xs ys)

  pub merged_behind :
      IsParted (absorb stop cur stop m) first us cur (n + k) (stop + k) k vs (xs ++ ys)
  merged_behind =
      let (tag, k_size, k_large, apart, behind_run) = t.back in
      let place = t.place in
      let n_size = t.size in
      let n_large = t.large in
      let stops = t.stops in
      record {
        place = place;
        stops = omega (arith, stops);
        large = omega (arith, n_large);
        front =
            Run-frame (sizes m) (prev_sizes m) _ _ (start first) 0 us t.front
              (λ q i l. ground (arith, absorb-sizes stop cur stop m q))
              (λ q i l. absorb-prev_sizes stop cur stop m q);
        size = ground (arith, absorb-sizes stop cur stop m cur, k_size, n_size);
        back =
            Run-frame (sizes m) (prev_sizes m) _ _ (stop + k) k vs behind_run
              (λ q i l. ground (arith, absorb-sizes stop cur stop m q))
              (λ q i l. absorb-prev_sizes stop cur stop m q);
        last_size = ground (
          arith,
          absorb-sizes stop cur stop m (end (stop + k) vs),
          t.last_size,
          end-≤ (stop + k) vs,
        );
        links =
            absorb-links m first (end (stop + k) vs) stop xs ys t.links (IsParted-Distinct t) cur
              stop;
        lists = λ q. omega (arith, t.lists q, behind_members q);
        as_many = omega (arith, t.as_many, length-append xs (stop ∷ ys), length-append xs ys);
        unlinked = λ q i. ground (
          arith,
          absorb-nexts stop cur stop m q behind_other,
          t.unlinked q,
          behind_members q,
          IsParted-once t q,
          IsParted-member t q,
          previous-inner _ _ first stop _ xs ys t.links,
          occurs-append q xs (stop ∷ ys),
        );
        checks = λ q i. ground (
          arith,
          absorb-canaries stop cur stop m q,
          t.checks q,
          behind_members q,
          IsParted-once t q,
          IsParted-member t q,
        );
      }
