-- ===== src/Cache/Tests/Edges.antt =====
-- The theorems on single chains, locks, failures and new caches of apc_cache.c, at small states.
use pecl_caching_apc.Base.{ℕ, ◌+◌, ◌≡◌, refl, true, false, [], ◌∷◌, some, arith, tally}
use pecl_caching_apc.Cache.Types.{Key, Cache}
use pecl_caching_apc.Cache.Slots.{user_match}
use pecl_caching_apc.Cache.Insert.{Alloc, user_insert, user_insert_locked, is_last_key}
use pecl_caching_apc.Cache.Find.{flat, has_address}
use pecl_caching_apc.Cache.Changes.{Returns}
use pecl_caching_apc.Cache.Effects.{IsIdle}
use pecl_caching_apc.Cache.Create.{user_key, create}
use pecl_caching_apc.Cache.Walks.{owned}
use pecl_caching_apc.Cache.Invariant.{IsValid}
use pecl_caching_apc.Cache.Failure.{user_insert-loses}
use pecl_caching_apc.Cache.Slam.{user_insert_locked-is_last_key}
use pecl_caching_apc.Cache.Start.{create-IsValid}
use pecl_caching_apc.Cache.Tests.{first_byte, user_value, user_slot_at, cache, plenty, pool}

abbrev key : Key
key = user_key first_byte (6 ∷ []) 12

abbrev full : Cache
full = record cache {
  slots = (user_slot_at 8 300 ∷ user_slot_at 6 100 ∷ user_slot_at 4 500 ∷ []) ∷ [] ∷ [];
}

full-IsIdle : IsIdle full
full-IsIdle = record { unlocked = refl; has_lock = refl; width = refl; some_slots = omega arith }

abbrev no_room : Alloc
no_room = record { slot = false; text = true }

not_last : is_last_key true 1 12 key full.header.lastkey ≡ false
unfolding is_last_key
not_last = refl

none_before : tally (user_match 6 (6 ∷ [])) (user_slot_at 8 300 ∷ []) ≡ 0
unfolding user_match
none_before = refl

matches : user_match 6 (6 ∷ []) (user_slot_at 6 100) ≡ true
unfolding user_match
matches = refl

user_insert-loses_example :
    Returns
      (λ r c'.
        (r ≡ false)
        × ((a : ℕ)
            → owned a c'.header (flat c'.slots) + tally (has_address a) (user_slot_at 4 500 ∷ [])
              ≡ owned a full.header (flat full.slots)))
      (user_insert 12 1 12 true false no_room pool key (some (user_value 200)) full)
user_insert-loses_example =
    user_insert-loses 12 1 12 true false no_room pool key (user_value 200) full
      (user_slot_at 8 300 ∷ []) (user_slot_at 4 500 ∷ []) (user_slot_at 6 100) full-IsIdle not_last
      refl refl none_before matches refl

create-IsValid_example : (c : Cache) × (create 500 3600 0 9 true ≡ some c) × IsValid c
create-IsValid_example = create-IsValid 500 3600 0 9

abbrev long_hash : Key
long_hash = let k = user_key first_byte (6 ∷ []) 12 in record k { h = 5000000000 }

user_insert_locked-is_last_key_example :
    is_last_key true 2 12 long_hash
      (user_insert_locked 12 1 12 false plenty pool long_hash
        (user_value 200)
        cache).1.header.lastkey
    ≡ false
user_insert_locked-is_last_key_example =
    user_insert_locked-is_last_key 12 1 2 12 false plenty pool long_hash (user_value 200) cache
      (λ e. omega (arith, e))
