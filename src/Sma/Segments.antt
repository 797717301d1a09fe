-- ===== src/Sma/Segments.antt =====
-- apc_sma.c: the segments together. `apc_sma_malloc_ex` takes memory from the segment used last,
-- then from the others, and asks the caches to expunge in between; what the callbacks do is a
-- parameter. This is the build with APC_MEMPROTECT.
use pecl_caching_apc.Base.{
  ℕ, zero, suc, ◌+◌, Bool, true, false, ◌&&◌, Option, none, some, List, [], ◌∷◌, ◌==◌, ltb, leb,
  if◌then◌else◌, add64, sub64, length, get_elem?, set,
}
use pecl_caching_apc.Sma
use pecl_caching_apc.Sma.Deallocate.{deallocate}
use pecl_caching_apc.Sma.{
  Segment, Allocation, fails, aborts, allocates, Blocks, block_size, min_block_size,
}

-- `apc_segment_t` and the header at its address. A null `roaddr` is 0.
pub record Mapping : Type 0 where
  pub shmaddr : ℕ
  pub roaddr : ℕ
  pub segment : Segment

-- The variables of apc_sma.c, with the state of the clients that the callbacks change.
pub record Shared (S : Type 0) : Type 0 where
  pub segsize : ℕ
  pub lastseg : ℕ
  pub segments : List Mapping
  pub client : S

-- What an allocation returns: `fails` is NULL and `aborts` a failed assertion.
pub data Reply (S : Type 0) : Type 0 where
  exhausted : Shared S → Reply S
  stopped : Reply S
  returned : (p allocated : ℕ) → Shared S → Reply S

abbrev pub or_else : {S : Type 0} → Reply S → (Shared S → Reply S) → Reply S
or_else (exhausted sh) f = f sh
or_else stopped f = stopped
or_else (returned p allocated sh) f = returned p allocated sh

-- `expunge_cb` of a cache
abbrev pub Callback : Type 0 → Type 0
Callback S = ℕ → Shared S → Shared S

-- The result of `sma_allocate` in segment `i`.
abbrev pub reply_of : {S : Type 0} → (i : ℕ) → Mapping → Shared S → Allocation → Reply S
reply_of i mp sh fails = exhausted sh
reply_of i mp sh aborts = stopped
reply_of i mp sh (allocates off allocated seg) =
    returned (mp.shmaddr + off) allocated
      (record sh { segments = set sh.segments i (record mp { segment = seg }) })

-- Without such a segment the code would read out of bounds.
abbrev pub allocate_at : {S : Type 0} → (i n fragment : ℕ) → Shared S → Option Mapping → Reply S
allocate_at i n fragment sh none = stopped
allocate_at i n fragment sh (some mp) = reply_of i mp sh (Sma.allocate n fragment mp.segment)

abbrev pub allocate_in : {S : Type 0} → (i n fragment : ℕ) → Shared S → Reply S
allocate_in i n fragment sh = allocate_at i n fragment sh (get_elem? sh.segments i)

-- One segment, and once more after the current cache, if there is one, has expunged.
unfoldable pub try_segment :
    {S : Type 0}
    → Option (Callback S)
    → (which : Shared S → ℕ) (n fragment : ℕ) → Shared S
    → Reply S
try_segment none which n fragment sh = allocate_in (which sh) n fragment sh
try_segment (some expunge) which n fragment sh =
    or_else (allocate_in (which sh) n fragment sh) (λ failed.
      let sh' = expunge (add64 n fragment) failed in allocate_in (which sh') n fragment sh')

-- `sma_lastseg = i` on success
abbrev pub remember : {S : Type 0} → ℕ → Reply S → Reply S
remember i (exhausted sh) = exhausted sh
remember i stopped = stopped
remember i (returned p allocated sh) = returned p allocated (record sh { lastseg = i })

-- The loop over the other segments.
unfoldable pub try_others :
    {S : Type 0} → Option (Callback S) → (n fragment count i : ℕ) → Shared S → Reply S
try_others current n fragment zero i sh = exhausted sh
try_others current n fragment (suc count) i sh =
    or_else
      (if i == sh.lastseg
        then exhausted sh
        else remember i (try_segment current (λ _. i) n fragment sh))
      (try_others current n fragment count (suc i))

-- From `restart` to the end of the loop.
unfoldable pub attempt : {S : Type 0} → Option (Callback S) → (n fragment : ℕ) → Shared S → Reply S
attempt current n fragment sh =
    or_else (try_segment current (λ sh'. sh'.lastseg) n fragment sh)
      (λ sh'. try_others current n fragment (length sh'.segments) 0 sh')

-- `apc_sma_malloc_ex`: the file cache and the user cache expunge before the second attempt.
unfoldable pub malloc_ex :
    {S : Type 0}
    → (file_cb user_cb : Callback S) → Option (Callback S)
    → (n fragment : ℕ) → Shared S
    → Reply S
malloc_ex file_cb user_cb current n fragment sh = or_else (attempt current n fragment sh) (λ sh'.
    attempt current n fragment (user_cb (add64 n fragment) (file_cb (add64 n fragment) sh')))

-- `apc_sma_malloc`
unfoldable pub malloc :
    {S : Type 0}
    → (file_cb user_cb : Callback S) → Option (Callback S)
    → (n : ℕ) → Shared S
    → Reply S
malloc file_cb user_cb current n = malloc_ex file_cb user_cb current n min_block_size

-- The test that a segment of `segsize` bytes at `base` holds `p`.
abbrev pub holds : (segsize base p : ℕ) → Bool
holds segsize base p = leb base p && ltb (sub64 p base) segsize

-- What `apc_sma_free` does: `unknown` logs that no segment holds the address.
pub data Freed (S : Type 0) : Type 0 where
  unknown : Freed S
  failed : Freed S
  freed : Shared S → Freed S

abbrev pub freed_in : {S : Type 0} → (i : ℕ) → Mapping → Shared S → Option (ℕ × Segment) → Freed S
freed_in i mp sh none = failed
freed_in i mp sh (some r) =
    freed (record sh { segments = set sh.segments i (record mp { segment = r.1 }) })

unfoldable pub free_from : {S : Type 0} → (p i : ℕ) → List Mapping → Shared S → Freed S
free_from p i [] sh = unknown
free_from p i (mp ∷ rest) sh =
    let later = free_from p (suc i) rest sh in
    if holds sh.segsize mp.shmaddr p
    then freed_in i mp sh (deallocate (sub64 p mp.shmaddr) mp.segment)
    else later

-- `apc_sma_free`
unfoldable pub free : {S : Type 0} → (p : ℕ) → Shared S → Freed S
free p sh = if p == 0 then freed sh else free_from p 0 sh.segments sh

-- `apc_sma_realloc`, which does not copy what `p` holds.
unfoldable pub realloc :
    {S : Type 0}
    → (file_cb user_cb : Callback S) → Option (Callback S)
    → (p n : ℕ) → Shared S
    → Reply S
realloc file_cb user_cb current p n sh = elim (free p sh) [
  | unknown ↦ malloc file_cb user_cb current n sh
  | failed ↦ stopped
  | freed sh' ↦ malloc file_cb user_cb current n sh'
]

-- The loop that `apc_sma_protect` and `apc_sma_unprotect` share: the address in the other mapping
-- of the first segment whose mapping `from` holds `p`.
unfoldable pub translate : (from to : Mapping → ℕ) (segsize p : ℕ) → List Mapping → Option ℕ
translate from to segsize p [] = none
translate from to segsize p (mp ∷ rest) =
    let later = translate from to segsize p rest in
    if holds segsize (from mp) p then some (to mp + sub64 p (from mp)) else later

-- The two functions, from the segment used last on; without a read-only mapping an address is its
-- own image.
unfoldable pub translate_from :
    {S : Type 0} → (from to : Mapping → ℕ) → (p : ℕ) → Shared S → Option Mapping → Option ℕ
translate_from from to p sh none = none
translate_from from to p sh (some mp) =
    if mp.roaddr == 0
    then some p
    else (if holds sh.segsize (from mp) p
        then some (to mp + sub64 p (from mp))
        else translate from to sh.segsize p sh.segments)

abbrev pub translate_last : {S : Type 0} → (from to : Mapping → ℕ) → (p : ℕ) → Shared S → Option ℕ
translate_last from to p sh = translate_from from to p sh (get_elem? sh.segments sh.lastseg)

-- `apc_sma_protect`
unfoldable pub protect : {S : Type 0} → (p : ℕ) → Shared S → Option ℕ
protect p sh = if p == 0 then none else translate_last (λ mp. mp.shmaddr) (λ mp. mp.roaddr) p sh

-- `apc_sma_unprotect`
unfoldable pub unprotect : {S : Type 0} → (p : ℕ) → Shared S → Option ℕ
unprotect p sh = if p == 0 then none else translate_last (λ mp. mp.roaddr) (λ mp. mp.shmaddr) p sh

-- `apc_sma_get_avail_mem`
unfoldable pub get_avail_mem : List Mapping → ℕ
get_avail_mem [] = 0
get_avail_mem (mp ∷ rest) = add64 mp.segment.avail (get_avail_mem rest)

-- `apc_sma_get_avail_size`
unfoldable pub get_avail_size : (size : ℕ) → List Mapping → Bool
get_avail_size size [] = false
get_avail_size size (mp ∷ rest) =
    let later = get_avail_size size rest in if ltb size mp.segment.avail then true else later
