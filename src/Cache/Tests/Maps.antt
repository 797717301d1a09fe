-- ===== src/Cache/Tests/Maps.antt =====
-- The theorems on the user cache of apc_cache.c as a map, at a small cache.
use pecl_caching_apc.Base.{
  ◌≤◌, ◌≡◌, refl, true, false, not, ◌&&◌, [], ◌∷◌, none, some, arith, get_or, tally, inr,
}
use pecl_caching_apc.Cache.Types.{Cache}
use pecl_caching_apc.Cache.Slots.{
  user_match, remove_slot, free_slot, hard_expired, process_pending_removals, pending,
}
use pecl_caching_apc.Cache.Lock.{ok, lock, unlock, under_lock, on_chain}
use pecl_caching_apc.Cache.Insert.{
  user_insert, user_insert_walk, user_insert_locked, is_last_key, make_slot, count_inserted,
}
use pecl_caching_apc.Cache.Find.{user_delete, user_find, user_exists, delete_walk}
use pecl_caching_apc.Cache.Create.{user_key}
use pecl_caching_apc.Cache.Changes.{Returns}
use pecl_caching_apc.Cache.Lookup.{live, is_some, value_of, referenced_of}
use pecl_caching_apc.Cache.UserMap.{
  Finds, user_slot, user_exists-eq, user_find-eq, user_insert-eq, user_insert-user_find,
}
use pecl_caching_apc.Cache.Removal.{user_delete-user_find}
use pecl_caching_apc.Cache.Tests.{
  first_byte, user_value, cache, cache-IsIdle, cache-IsValid, plenty, pool, state_of,
}

user_exists-eq_example :
    Returns
      (λ r c'.
        (r ≡ value_of (live 12 (user_slot first_byte (6 ∷ []) cache)))
        × (user_slot first_byte (6 ∷ []) c' ≡ user_slot first_byte (6 ∷ []) cache))
      (user_exists first_byte (6 ∷ []) 12 cache)
user_exists-eq_example = user_exists-eq first_byte (6 ∷ []) 12 cache cache-IsIdle refl

user_find-eq_example :
    Returns
      (λ r _. r ≡ referenced_of (live 12 (user_slot first_byte (6 ∷ []) cache)))
      (user_find first_byte 12 (6 ∷ []) 12 cache)
user_find-eq_example = user_find-eq first_byte 12 (6 ∷ []) 12 cache cache-IsIdle refl

not_last : is_last_key true 1 12 (user_key first_byte (6 ∷ []) 12) cache.header.lastkey ≡ false
unfolding is_last_key
not_last = refl

user_insert-eq_example :
    Returns
      (λ r _. r ≡ not (true && is_some (live 12 (user_slot first_byte (6 ∷ []) cache))))
      (user_insert 12 1 12 true true plenty pool
        (user_key first_byte (6 ∷ []) 12)
        (some (user_value 200))
        cache)
user_insert-eq_example =
    user_insert-eq first_byte 12 1 12 true true plenty pool (6 ∷ []) (user_value 200) cache
      (refl, refl) cache-IsIdle not_last

abbrev after_insert : Cache
after_insert = state_of (
    user_insert 12 1 12 true false plenty pool (user_key first_byte (6 ∷ []) 12)
      (some (user_value 200)) cache)

inserts_entry :
    user_insert 12 1 12 true false plenty pool
      (user_key first_byte (6 ∷ []) 12)
      (some (user_value 200))
      cache
    ≡ ok true after_insert
unfolding user_insert is_last_key under_lock lock unlock user_insert_locked on_chain
    user_insert_walk make_slot user_match count_inserted process_pending_removals pending
    hard_expired remove_slot free_slot
inserts_entry = refl

not_busy : after_insert.header.busy ≡ false
unfolding user_insert is_last_key under_lock lock unlock user_insert_locked on_chain
    user_insert_walk make_slot user_match count_inserted process_pending_removals pending
    hard_expired remove_slot free_slot
not_busy = refl

user_insert-user_find_example :
    Returns (λ r _. Finds (user_value 200) r) (user_find first_byte 15 (6 ∷ []) 15 after_insert)
user_insert-user_find_example =
    user_insert-user_find first_byte 12 1 12 true false plenty pool (6 ∷ []) (user_value 200) cache
      (refl, refl) 15 15 after_insert cache-IsValid inserts_entry not_busy (inr (omega arith))

abbrev after_delete : Cache
after_delete = state_of (user_delete first_byte 12 (6 ∷ []) cache)

deletes_entry : user_delete first_byte 12 (6 ∷ []) cache ≡ ok true after_delete
unfolding user_delete under_lock lock unlock on_chain delete_walk user_match remove_slot free_slot
deletes_entry = refl

still_free : after_delete.header.busy ≡ false
unfolding user_delete under_lock lock unlock on_chain delete_walk user_match remove_slot free_slot
still_free = refl

one_slot : tally (user_match 6 (6 ∷ [])) (get_or cache.slots 0 []) ≤ 1
unfolding user_match
one_slot = omega arith

user_delete-user_find_example :
    (true ≡ is_some (user_slot first_byte (6 ∷ []) cache))
    × Returns (λ found _. found ≡ none) (user_find first_byte 13 (6 ∷ []) 13 after_delete)
user_delete-user_find_example =
    user_delete-user_find first_byte 12 (6 ∷ []) cache true after_delete 13 13 cache-IsValid
      one_slot deletes_entry still_free
