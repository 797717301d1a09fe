-- ===== src/Sma/Heap/GiveBack.antt =====
-- `sma_deallocate` in a segment whose memory is tiled: the whole function.
use pecl_caching_apc.Base.{
  ℕ, ◌+◌, ◌<◌, ◌≡◌, List, [], ◌∷◌, ◌++◌, Option, some, arith, ap, sym, ◌∙◌, subst, refl, add64,
  sub64, word_mod,
}
use pecl_caching_apc.Sma.{Blocks, Segment, block_size}
use pecl_caching_apc.Sma.Deallocate.{join_next, put_back, deallocate}
use pecl_caching_apc.Sma.Heap.Links.{occurs}
use pecl_caching_apc.Sma.Heap.Sentinel.{with_end}
use pecl_caching_apc.Sma.Heap.Links.{Linked}
use pecl_caching_apc.Sma.Heap.Fields.{sizes, nexts, previouses}
use pecl_caching_apc.Sma.Heap.Tiles.{
  Tile, free, used, At, at, end, end-append, end-≤, out, useds, free_bytes, free_bytes-append,
  free_bytes-≤, Apart, occurs-useds, useds-At, length-frees, occurs-frees,
}
use pecl_caching_apc.Sma.Heap.Runs.{Run-front, Run-prefix}
use pecl_caching_apc.Sma.Heap.Tiled.{start, sentinel}
use pecl_caching_apc.Sma.Heap.Put.{IsTiled-put, put_useds, put_place}
use pecl_caching_apc.Sma.Heap.Allocate.{IsHeap}
use pecl_caching_apc.Sma.Heap.Open.{
  IsOpen, AfterPrev, after_prev, AfterNext, after_next, join_prev-AfterPrev,
}
use pecl_caching_apc.Sma.Heap.Release.{join_next-AfterNext}

-- The outcome of a free of the used block at `cur`: its size is returned and added to `avail`, it
-- is no longer used, and no other block is used or unused for it.
pub data Deallocated (seg : Segment) (ts : List Tile) (cur : ℕ)
    : Option (ℕ × Segment) → Type 0 where
  released :
      (seg' : Segment) (ts' : List Tile) (fl' : List ℕ)
      → IsHeap seg' ts' fl'
      → seg'.first ≡ seg.first
      → sentinel seg'.first ts' ≡ sentinel seg.first ts
      → seg'.avail ≡ seg.avail + sizes seg.blocks cur
      → ((q : ℕ)
          → occurs q (useds (start seg.first) ts)
            ≡ occurs q (useds (start seg.first) ts') + occurs q (cur ∷ []))
      → Deallocated seg ts cur (some (sizes seg.blocks cur, seg'))

module _ (seg : Segment) (us : List Tile) (n : ℕ) (vs : List Tile) (fl : List ℕ)
    (h : IsHeap seg (us ++ used n ∷ vs) fl) where
  abbrev cur : ℕ
  cur = end (start seg.first) us

  abbrev in_use : ℕ → ℕ
  in_use q = occurs q (useds (start seg.first) us) + occurs q (useds (cur + n) vs)

  whole_place : sentinel seg.first (us ++ used n ∷ vs) ≡ end (cur + n) vs
  whole_place = end-append (start seg.first) us (used n ∷ vs)

  used_size : sizes seg.blocks cur ≡ n
  used_size = (Run-prefix _ _ (start seg.first) 0 us (used n ∷ vs) h.tiled.run).1

  opened :
      IsOpen seg.blocks seg.first
        (n + free_bytes us + free_bytes vs)
        (end (cur + n) vs)
        in_use
        us
        cur
        n
        (cur + n)
        0
        vs
        fl
  opened =
      let t = h.tiled in
      let (tag, size, large, _, behind_run) =
        Run-prefix _ _ (start seg.first) 0 us (used n ∷ vs) t.run in
      record {
        parted = record {
          place = refl;
          stops = refl;
          large = large;
          front = Run-front _ _ (start seg.first) 0 us (used n ∷ vs) t.run;
          size = size;
          back = behind_run;
          last_size = ap (sizes seg.blocks) (sym whole_place) ∙ t.last_size;
          links =
              subst
                (λ l. Linked (nexts seg.blocks) (previouses seg.blocks) seg.first (with_end fl l))
                whole_place t.links;
          lists = λ q. t.lists q ∙ occurs-frees q (start seg.first) us (used n ∷ vs);
          as_many = t.as_many ∙ length-frees (start seg.first) us (used n ∷ vs);
          unlinked = λ q i.
              t.unlinked q (ground (arith, occurs-useds q (start seg.first) us (used n ∷ vs)));
          checks =
              λ q i. t.checks q (ground (arith, occurs-useds q (start seg.first) us (used n ∷ vs)));
        };
        bytes = refl;
        ends = refl;
        uses = λ q. refl;
      }

  cur_word : cur + block_size < word_mod
  cur_word = omega (arith, whole_place, end-≤ (cur + n) vs, h.room, h.word)

  put_in_place :
      (m : Blocks) (us' : List Tile) (n' stop j : ℕ) (vs' : List Tile) (fl' : List ℕ)
      → IsOpen m seg.first
          (n + free_bytes us + free_bytes vs)
          (end (cur + n) vs)
          in_use
          us'
          (end (start seg.first) us')
          n'
          stop
          j
          vs'
          fl'
      → out 0 us' ≡ 0
      → Apart n' vs'
      → Deallocated seg
          (us ++ used n ∷ vs)
          cur
          (put_back (end (start seg.first) us') (sizes seg.blocks cur) seg (some m))
  put_in_place m us' n' stop j vs' fl' o before apart =
      let t = o.parted in
      let sum : add64 seg.avail (sizes seg.blocks cur) ≡ seg.avail + sizes seg.blocks cur = omega (
        arith,
        used_size,
        h.counts,
        h.room,
        h.word,
        whole_place,
        free_bytes-append us (used n ∷ vs),
        free_bytes-≤ (start seg.first) us,
        free_bytes-≤ (cur + n) vs,
      ) in
      released _ (us' ++ free n' ∷ vs') (end (start seg.first) us' ∷ fl')
        record {
          tiled = IsTiled-put m seg.first us' n' stop j vs' fl' t before apart;
          counts = omega (
            arith,
            sum,
            h.counts,
            used_size,
            o.bytes,
            free_bytes-append us (used n ∷ vs),
            free_bytes-append us' (free n' ∷ vs'),
          );
          room = omega (
            arith,
            h.room,
            whole_place,
            put_place m seg.first us' n' stop j vs' fl' t before apart,
            o.ends,
          );
          word = h.word;
        }
        refl (put_place m seg.first us' n' stop j vs' fl' t before apart ∙ o.ends ∙ sym whole_place)
        sum
        (λ q. ground (
          arith,
          o.uses q,
          put_useds m seg.first us' n' stop j vs' fl' t before apart q,
          occurs-useds q (start seg.first) us (used n ∷ vs),
        ))

  put_back-Deallocated :
      (c : ℕ) (o : Option Blocks)
      → AfterNext seg.first (n + free_bytes us + free_bytes vs) (end (cur + n) vs) in_use c o
      → Deallocated seg (us ++ used n ∷ vs) cur (put_back c (sizes seg.blocks cur) seg o)
  put_back-Deallocated c _ (after_next m us' n' stop j vs' fl' o before apart) =
      let at_c = o.parted.place in
      subst
        (λ p.
          Deallocated seg (us ++ used n ∷ vs) cur (put_back p (sizes seg.blocks cur) seg (some m)))
        at_c
        (put_in_place m us' n' stop j vs' fl'
          (subst
            (λ p.
              IsOpen m seg.first (n + free_bytes us + free_bytes vs) (end (cur + n) vs) in_use us' p
                n' stop j vs' fl')
            (sym at_c) o)
          before apart)

  joined :
      (r : ℕ × Blocks)
      → AfterPrev seg.first (n + free_bytes us + free_bytes vs) (end (cur + n) vs) in_use r
      → Deallocated seg
          (us ++ used n ∷ vs)
          cur
          (put_back (r.0) (sizes seg.blocks cur) seg (join_next (r.0) (r.1)))
  joined _ (after_prev m us' c n' stop j vs' fl' o before) =
      put_back-Deallocated c _
        (join_next-AfterNext seg.first _ _ in_use m us' c n' stop j vs' fl' o before)

  released_block : Deallocated seg (us ++ used n ∷ vs) cur (deallocate (cur + block_size) seg)
  unfolding deallocate
  released_block =
      let same : sub64 (cur + block_size) block_size ≡ cur = omega (arith, cur_word) in
      rw same (
        joined _
          (join_prev-AfterPrev seg.first _ _ in_use seg.blocks us cur n (cur + n) 0 vs fl opened))

At-used :
    (seg : Segment) (ts : List Tile) (fl : List ℕ) (c : ℕ)
    → IsHeap seg ts fl
    → At used c (start seg.first) ts
    → Deallocated seg ts c (deallocate (c + block_size) seg)
At-used seg _ fl c h (at us n vs e) =
    subst (λ p. Deallocated seg (us ++ used n ∷ vs) p (deallocate (p + block_size) seg)) e
      (released_block seg us n vs fl h)

-- A free of a used block keeps the memory of the segment in order, and comes to no failed
-- assertion: the block is joined with the free blocks beside it, if there are any, and put in the
-- free list, its size is returned and added to `avail`, and it alone is no longer used. The memory is
-- in order before.
pub deallocate-Deallocated :
    (seg : Segment) (ts : List Tile) (fl : List ℕ) (cur : ℕ)
    → IsHeap seg ts fl
    → 0 < occurs cur (useds (start seg.first) ts)
    → Deallocated seg ts cur (deallocate (cur + block_size) seg)
deallocate-Deallocated seg ts fl cur h i =
    At-used seg ts fl cur h (useds-At cur (start seg.first) ts i)
