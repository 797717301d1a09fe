-- ===== src/Sma/Tests.antt =====
-- The theorems on apc_sma.c at small segments.
use pecl_caching_apc.Base.{
  Option, none, ℕ, zero, suc, ◌+◌, ◌≤◌, ◌<◌, ◌≡◌, refl, true, [], ◌∷◌, some, map, arith, ◌^◌,
  get_elem?, sym, ◌∙◌,
}
use pecl_caching_apc.Sma.{
  block_size, Blocks, Segment, allocate, search_fit, write, real_size, fails, check_canary,
  Allocation, aborts, allocates, take_block, unlink, set_size, set_prev_size, set_fnext, set_fprev,
  set_canary, reset_canary,
}
use pecl_caching_apc.Sma.Layout.{init_segment}
use pecl_caching_apc.Sma.Fit.{FreeList, before_fit, Granted, search_fit-eq, allocate-Granted}
use pecl_caching_apc.Sma.Start.{init_segment-fails}
use pecl_caching_apc.Sma.Deallocate.{deallocate, join_prev, join_next, put_first}
use pecl_caching_apc.Sma.Info.{links, link_of, links-eq}
use pecl_caching_apc.Sma.Segments.{Mapping, Shared, protect, unprotect, translate_from, translate}
use pecl_caching_apc.Sma.Segments.{malloc_ex, attempt, try_others, try_segment, exhausted}
use pecl_caching_apc.Sma.Exhaustion.{malloc_ex-exhausted}
use pecl_caching_apc.Sma.Protect.{IsMapped, Separate, some-injective, protect-unprotect}

abbrev blank : Blocks
blank p = record { size = 0; prev_size = 0; fnext = 0; fprev = 0; canary = 0 }

abbrev segment : Segment
segment = init_segment 40 1000 blank

init_segment-fails_example :
    (segment.avail ≡ 880) × ((segment.blocks 80).size ≡ 840) × (allocate 820 48 segment ≡ fails)
unfolding real_size
init_segment-fails_example =
    init_segment-fails 40 1000 blank (omega arith) (omega arith) 820 48 (omega arith)

-- A segment of two free blocks, of which the first is too small.
abbrev two_blocks : Blocks
two_blocks =
    write
      (write
        (write
          (write blank 40
            (record { size = 0; prev_size = 0; fnext = 80; fprev = 0; canary = 0x42424242 }))
          80 (record { size = 96; prev_size = 0; fnext = 300; fprev = 40; canary = 0x42424242 }))
        300 (record { size = 200; prev_size = 0; fnext = 500; fprev = 80; canary = 0x42424242 }))
      500 (record { size = 0; prev_size = 200; fnext = 0; fprev = 300; canary = 0x42424242 })

abbrev two_free : Segment
two_free = record { first = 40; segsize = 600; avail = 296; blocks = two_blocks }

two_free-FreeList : FreeList two_blocks 40 (80 ∷ 300 ∷ 500 ∷ [])
unfolding FreeList write
two_free-FreeList = (refl, omega arith, (refl, omega arith, (refl, omega arith, refl)))

search_fit-eq_example :
    search_fit 5 144 two_blocks 40 ≡ before_fit 144 two_blocks 40 (80 ∷ 300 ∷ 500 ∷ [])
search_fit-eq_example =
    search_fit-eq 5 144 two_blocks 40 (80 ∷ 300 ∷ 500 ∷ []) two_free-FreeList (omega arith)

links-eq_example : links 5 two_blocks 40 ≡ map (link_of two_blocks) (80 ∷ 300 ∷ [])
links-eq_example = links-eq 5 two_blocks 40 500 (80 ∷ 300 ∷ []) two_free-FreeList (omega arith)

second_fits : before_fit (real_size 100) two_blocks 40 (80 ∷ 300 ∷ 500 ∷ []) ≡ some 80
unfolding real_size write
second_fits = refl

second_next : (two_blocks 80).fnext ≡ 300
unfolding write
second_next = refl

second_size : (two_blocks (two_blocks 80).fnext).size ≤ 296
unfolding write
second_size = omega arith

canary_40 : check_canary 40 two_blocks ≡ true
unfolding check_canary write
canary_40 = refl

canary_80 : check_canary 80 two_blocks ≡ true
unfolding check_canary write
canary_80 = refl

canary_300 : check_canary (two_blocks 80).fnext two_blocks ≡ true
unfolding check_canary write
canary_300 = refl

allocate-Granted_example : Granted 100 (two_blocks 80).fnext two_free (allocate 100 48 two_free)
allocate-Granted_example =
    allocate-Granted 100 48 80 two_free (80 ∷ 300 ∷ 500 ∷ []) two_free-FreeList (omega arith)
      (omega arith) second_fits second_size (omega arith) canary_40 canary_80 canary_300

-- Two segments of 600 bytes, each mapped twice.
abbrev shared : Shared (Unit {0})
shared = record {
  segsize = 600;
  lastseg = 1;
  segments =
      record { shmaddr = 1000; roaddr = 5000; segment = two_free }
      ∷ record { shmaddr = 2000; roaddr = 6000; segment = two_free }
      ∷ [];
  client = tt;
}

shared-nonnull : (i : ℕ) (mp : Mapping) → get_elem? shared.segments i ≡ some mp → 0 < mp.roaddr
shared-nonnull zero mp e = ground (arith)
shared-nonnull (suc zero) mp e = ground (arith)
shared-nonnull (suc (suc i)) mp e = ground (arith)

shared-no_wrap :
    (i : ℕ) (mp : Mapping)
    → get_elem? shared.segments i ≡ some mp
    → (mp.shmaddr + 600 ≤ 2 ^ 64) × (mp.roaddr + 600 ≤ 2 ^ 64)
shared-no_wrap zero mp e = ground (arith)
shared-no_wrap (suc zero) mp e = ground (arith)
shared-no_wrap (suc (suc i)) mp e = ground (arith)

shared-Separate : (p : ℕ) → Separate (λ mp. mp.roaddr) 600 p shared.segments
shared-Separate p zero zero x y a b h k = some-injective (sym a ∙ b)
shared-Separate p zero (suc zero) x y a b h k = absurd (ground (arith))
shared-Separate p (suc zero) zero x y a b h k = absurd (ground (arith))
shared-Separate p (suc zero) (suc zero) x y a b h k = some-injective (sym a ∙ b)
shared-Separate p (suc (suc i)) j x y a b h k = ground (arith)
shared-Separate p i (suc (suc j)) x y a b h k = ground (arith)

shared-IsMapped : IsMapped shared
shared-IsMapped = record {
  last = record { shmaddr = 2000; roaddr = 6000; segment = two_free };
  last_at = refl;
  nonnull = shared-nonnull;
  no_wrap = shared-no_wrap;
  separate = shared-Separate;
}

abbrev public : ℕ
public = 6040

protected : protect 2040 shared ≡ some public
unfolding protect translate_from translate
protected = refl

protect-unprotect_example : unprotect public shared ≡ some 2040
protect-unprotect_example =
    protect-unprotect shared 2040 public shared-IsMapped (omega arith) protected

abbrev segment_of : Allocation → Segment
segment_of fails = two_free
segment_of aborts = two_free
segment_of (allocates off allocated seg) = seg

abbrev second_taken : Segment
second_taken = segment_of (allocate 100 48 two_free)

takes_second : allocate 100 48 two_free ≡ allocates 340 160 second_taken
unfolding allocate real_size check_canary write search_fit take_block unlink set_prev_size set_fnext
    set_fprev set_canary
takes_second = refl

abbrev given : Option (ℕ × Segment) → Segment
given none = two_free
given (some r) = r.1

abbrev second_freed : Segment
second_freed = given (deallocate 340 second_taken)

frees_second : deallocate 340 second_taken ≡ some (200, second_freed)
unfolding allocate real_size check_canary write search_fit take_block unlink set_size set_prev_size
    set_fnext set_fprev set_canary reset_canary deallocate join_prev join_next put_first
frees_second = refl

near : (two_blocks 80).fnext + block_size < 2 ^ 64
near = omega (arith, second_next)

abbrev keep : ℕ → Shared (Unit {0}) → Shared (Unit {0})
keep n sh = sh

gives_up : malloc_ex keep keep none 1000 48 shared ≡ exhausted shared
unfolding malloc_ex attempt try_others try_segment allocate real_size
gives_up = refl

malloc_ex-exhausted_example : (shared ≡ shared) × (allocate 1000 48 two_free ≡ fails)
malloc_ex-exhausted_example =
    malloc_ex-exhausted keep keep 1000 48 shared shared 0
      (record { shmaddr = 1000; roaddr = 5000; segment = two_free }) gives_up refl
