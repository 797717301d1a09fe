-- ===== src/Cache/Tests/Histories.antt =====
-- The theorems on histories of apc_cache.c at a small cache.
use pecl_caching_apc.Base.{ℕ, ◌+◌, ◌≤◌, ◌≡◌, refl, pos, map, [], ◌∷◌, some, arith}
use pecl_caching_apc.Cache.Types.{Entry, Cache}
use pecl_caching_apc.Cache.Slots.{user_match, hard_expired, touch}
use pecl_caching_apc.Cache.Lock.{ok, lock, unlock, under_lock, on_chain, and_then}
use pecl_caching_apc.Cache.Find.{flat, user_find, user_find_walk, release}
use pecl_caching_apc.Cache.Walks.{owned, pins}
use pecl_caching_apc.Cache.Changes.{Returns}
use pecl_caching_apc.Cache.Counts.{ref_counts, one_less}
use pecl_caching_apc.Cache.Histories.{exec, exec_all}
use pecl_caching_apc.Cache.Invariant.{IsValid, exec-IsValid, exec-owned, exec_all-pinned}
use pecl_caching_apc.Cache.Release.{release-IsValid, user_find-release}
use pecl_caching_apc.Cache.Tests.{
  first_byte, user_value, cache, cache-IsValid, insertion, removals, state_of,
}

exec-IsValid_example : Returns (λ _. IsValid) (exec first_byte insertion cache)
exec-IsValid_example = exec-IsValid first_byte insertion cache ((refl, refl), tt) cache-IsValid

exec-owned_example :
    Returns
      (λ _ c'.
        (owned 200 cache.header (flat cache.slots) ≤ owned 200 c'.header (flat c'.slots))
        × (owned 200 c'.header (flat c'.slots) ≤ owned 200 cache.header (flat cache.slots) + 1))
      (exec first_byte insertion cache)
exec-owned_example = exec-owned first_byte insertion cache 200 ((refl, refl), tt) cache-IsValid

exec_all-pinned_example :
    Returns
      (λ _ c'.
        IsValid c'
        × ((a : ℕ) → pins a cache.header (flat cache.slots) ≤ pins a c'.header (flat c'.slots)))
      (exec_all first_byte removals cache)
exec_all-pinned_example =
    exec_all-pinned first_byte removals cache (tt, (((refl, refl), tt), (tt, (tt, tt))))
      cache-IsValid refl

abbrev found_entry : Entry
found_entry = let v = user_value 100 in record v { ref_count = pos 1 }

abbrev after_find : Cache
after_find = state_of (user_find first_byte 12 (6 ∷ []) 12 cache)

finds_entry : user_find first_byte 12 (6 ∷ []) 12 cache ≡ ok (some found_entry) after_find
unfolding user_find under_lock lock unlock on_chain user_find_walk user_match hard_expired touch
finds_entry = refl

user_find-release_example :
    Returns (λ _. IsValid) (and_then (exec_all first_byte removals after_find) (λ _. release 100))
user_find-release_example =
    user_find-release first_byte 12 (6 ∷ []) 12 removals cache after_find found_entry cache-IsValid
      refl refl finds_entry (tt, (((refl, refl), tt), (tt, (tt, tt))))

release-IsValid_example :
    Returns
      (λ _ c'.
        IsValid c'
        × ((b : ℕ)
            → (owned b c'.header (flat c'.slots) ≡ owned b cache.header (flat cache.slots))
              × (ref_counts b (flat c'.slots)
                  ≡ map (one_less 100 b) (ref_counts b (flat cache.slots)))
              × (ref_counts b c'.header.deleted_list
                  ≡ map (one_less 100 b) (ref_counts b cache.header.deleted_list))))
      (release 100 cache)
release-IsValid_example = release-IsValid 100 cache cache-IsValid (omega arith)
