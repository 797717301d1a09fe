-- ===== src/Sma/Heap/Choose.antt =====
-- The search of `sma_allocate` in the free list of a segment whose memory is tiled.
use pecl_caching_apc.Base.{
  ℕ, ◌+◌, ◌*◌, ◌≤◌, ◌<◌, ◌≡◌, List, [], ◌∷◌, ◌++◌, Option, none, some, arith, length, leb, ◌==◌,
  Bool-cases, inl, inr, false, subst,
}
use pecl_caching_apc.Sma.{Blocks}
use pecl_caching_apc.Sma.Fit.{FreeList, before_fit}
use pecl_caching_apc.Sma.Heap.Links.{occurs, Linked, ==-≡}
use pecl_caching_apc.Sma.Heap.Sentinel.{with_end}
use pecl_caching_apc.Sma.Heap.Fields.{sizes, nexts, previouses}
use pecl_caching_apc.Sma.Heap.Tiles.{Tile, free, used, end, frees, free_bytes}
use pecl_caching_apc.Sma.Heap.Runs.{Run}

-- What the search finds: none where every block of the list is too small, or the block before one
-- that is large enough.
pub data Chosen (realsize : ℕ) (m : Blocks) : List ℕ → Option ℕ → Type 0 where
  all_small :
      {fl : List ℕ} → ((q : ℕ) → 0 < occurs q fl → sizes m q < realsize) → Chosen realsize m fl none
  one_large :
      (xs ys : List ℕ) (prv c : ℕ)
      → nexts m prv ≡ c
      → previouses m c ≡ prv
      → realsize ≤ sizes m c
      → Chosen realsize m (xs ++ c ∷ ys) (some prv)

Chosen-cons :
    {realsize : ℕ} {m : Blocks} {fl : List ℕ} {o : Option ℕ} (c : ℕ)
    → sizes m c < realsize
    → Chosen realsize m fl o
    → Chosen realsize m (c ∷ fl) o
Chosen-cons {realsize} {m} {fl} c small (all_small h) = all_small {fl = c ∷ fl} (λ q i.
    elim (Bool-cases (c == q)) [
      | inl e ↦ subst (λ x. sizes m x < realsize) (==-≡ c q e) small
      | inr e ↦ h q (ground (arith))
    ])
Chosen-cons c small (one_large xs ys prv d n b large) = one_large (c ∷ xs) ys prv d n b large

pub before_fit-Chosen :
    (realsize : ℕ) (m : Blocks) (p l : ℕ) (fl : List ℕ)
    → Linked (nexts m) (previouses m) p (with_end fl l)
    → sizes m l ≡ 0
    → 0 < realsize
    → Chosen realsize m fl (before_fit realsize m p (with_end fl l))
before_fit-Chosen realsize m p l [] links last some_size =
    rw (last, small) (all_small (λ q i. absurd (omega arith)))
  where
    small : leb realsize 0 ≡ false
    small = ground (arith)
before_fit-Chosen realsize m p l (c ∷ fl) (n, b, _, links) last some_size =
    elim (Bool-cases (leb realsize (sizes m c))) [
      | inl e ↦ rw e (one_large [] fl p c n b (ground (arith)))
      | inr e ↦ rw e (
          Chosen-cons c (ground (arith)) (before_fit-Chosen realsize m c l fl links last some_size))
    ]

pub Linked-FreeList :
    (m : Blocks) (p : ℕ) (cs : List ℕ) → Linked (nexts m) (previouses m) p cs → FreeList m p cs
unfolding FreeList
Linked-FreeList m p [] h = h
Linked-FreeList m p (c ∷ cs) (n, _, pos, links) = (n, pos, Linked-FreeList m c cs links)

-- A run has room for its blocks.
pub Run-length :
    (sz ps : ℕ → ℕ) (p k : ℕ) (ts : List Tile)
    → Run sz ps p k ts
    → p + 40 * length (frees p ts) ≤ end p ts
Run-length sz ps p k [] r = omega arith
Run-length sz ps p k (free n ∷ ts) (_, _, large, _, r) =
    omega (arith, Run-length sz ps (p + n) n ts r, large)
Run-length sz ps p k (used n ∷ ts) (_, _, large, _, r) =
    omega (arith, Run-length sz ps (p + n) 0 ts r)

pub free-≤ :
    (sz ps : ℕ → ℕ) (q p k : ℕ) (ts : List Tile)
    → Run sz ps p k ts
    → 0 < occurs q (frees p ts)
    → sz q ≤ free_bytes ts
free-≤ sz ps q p k [] r i = absurd (omega arith)
free-≤ sz ps q p k (free n ∷ ts) (_, size, _, _, r) i =
    ground (arith, size, free-≤ sz ps q (p + n) n ts r)
free-≤ sz ps q p k (used n ∷ ts) (_, _, _, _, r) i = omega (arith, free-≤ sz ps q (p + n) 0 ts r i)
