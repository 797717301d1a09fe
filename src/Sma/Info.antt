-- ===== src/Sma/Info.antt =====
-- apc_sma.c: `apc_sma_info`, which lists the free blocks of a segment.
use pecl_caching_apc.Base.{
  ℕ, zero, suc, ◌<◌, ◌≡◌, List, [], ◌∷◌, ◌++◌, map, arith, ◌==◌, if◌then◌else◌, length,
}
use pecl_caching_apc.Sma.{Blocks}
use pecl_caching_apc.Sma.Fit.{FreeList}

-- `apc_sma_link_t`, less the pointer
pub record Link : Type 0 where
  pub size : ℕ
  pub offset : ℕ

-- The loop of `apc_sma_info` over one segment, which ends before the sentinel. Each round goes to
-- another block, so a segment's size is fuel enough.
unfoldable pub links : (fuel : ℕ) → Blocks → (prv : ℕ) → List Link
links zero m prv = []
links (suc fuel) m prv =
    let cur = (m prv).fnext in
    let rest = links fuel m cur in
    if (m cur).fnext == 0 then [] else record { size = (m cur).size; offset = cur } ∷ rest

abbrev pub link_of : Blocks → ℕ → Link
link_of m c = record { size = (m c).size; offset = c }

-- Where the free list of a segment is some blocks and the sentinel, and there is fuel for all, the
-- list of `apc_sma_info` has the sizes and offsets of exactly these blocks, in their order, and not
-- the sentinel.
pub links-eq :
    (fuel : ℕ) (m : Blocks) (prv sentinel : ℕ) (cs : List ℕ)
    → FreeList m prv (cs ++ sentinel ∷ [])
    → length cs < fuel
    → links fuel m prv ≡ map (link_of m) cs
unfolding links FreeList
links-eq zero m prv sentinel cs l h = absurd (omega arith)
links-eq (suc fuel) m prv sentinel [] (e, pos, l) h = rw e (ground (arith))
links-eq (suc fuel) m prv sentinel (c ∷ []) (e, pos, (e', pos', l)) h =
    rw e (ground (arith, links-eq fuel m c sentinel [] (e', pos', l)))
links-eq (suc fuel) m prv sentinel (c ∷ d ∷ cs) (e, pos, (e', pos', l)) h =
    rw e (ground (arith, links-eq fuel m c sentinel (d ∷ cs) (e', pos', l)))
