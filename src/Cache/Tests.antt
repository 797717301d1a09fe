-- ===== src/Cache/Tests.antt =====
-- A small cache for the tests of apc_cache.c: two chains, one user entry.
mod Histories
mod Maps
mod Edges
use pecl_caching_apc.Base.{
  ℕ, zero, suc, ◌+◌, ◌≤◌, ◌<◌, ◌≡◌, refl, pos, Bool, true, false, not, ◌&&◌, List, [], ◌∷◌, none,
  some, arith, length, get_or, tally, inr, ◌⊎◌,
}
use pecl_caching_apc.Cache.Types.{
  KeyData, Key, no_key, EntryData, Entry, PoolRef, Slot, Chain, Header, Cache,
}
use pecl_caching_apc.Cache.Slots.{
  user_match, file_match, remove_slot, free_slot, hard_expired, key_equals, touch,
  process_pending_removals, pending,
}
use pecl_caching_apc.Cache.Lock.{
  Run, ok, deadlock, dangling, lock, unlock, under_lock, on_chain, and_then, under_safe_lock,
}
use pecl_caching_apc.Cache.Insert.{
  Alloc, no_memory, key_text, user_insert, user_insert_walk, insert_walk, user_insert_locked,
  is_last_key, make_slot, count_inserted,
}
use pecl_caching_apc.Cache.Find.{
  user_delete, flat, has_address, user_find, user_find_walk, user_exists, delete_walk, release,
}
use pecl_caching_apc.Cache.Clean.{Memory}
use pecl_caching_apc.Cache.Create.{user_key, create, make_prime}
use pecl_caching_apc.Cache.Walks.{owned, pins, has_key}
use pecl_caching_apc.Cache.Changes.{Returns}
use pecl_caching_apc.Cache.Histories.{
  Call, user_inserts, user_deletes, clears, expunges, exec, exec_all, misfiled,
}
use pecl_caching_apc.Cache.Effects.{IsIdle}
use pecl_caching_apc.Cache.Invariant.{IsValid, exec-IsValid, exec-owned, exec_all-pinned}
use pecl_caching_apc.Cache.Release.{release-IsValid, user_find-release}
use pecl_caching_apc.Cache.Lookup.{first, live, is_some, value_of, touched_of}
use pecl_caching_apc.Cache.UserMap.{
  Finds, user_slot, user_exists-eq, user_find-eq, user_insert-eq, user_insert-user_find,
}
use pecl_caching_apc.Cache.Removal.{user_delete-user_find}
use pecl_caching_apc.Cache.Slam.{user_insert_locked-is_last_key}
use pecl_caching_apc.Cache.Start.{IsPrime, create-IsValid}

abbrev pub first_byte : List ℕ → ℕ
first_byte s = get_or s 0 0

abbrev pub user_value : ℕ → Entry
user_value address = record {
  address = address;
  entry_data = EntryData.user (6 ∷ []) 7 60;
  ref_count = pos 0;
  mem_size = 96;
  pool = record { address = address; size = 96 };
}

abbrev pub user_slot_at : (byte address : ℕ) → Slot
user_slot_at byte address = record {
  key = user_key first_byte (byte ∷ []) 10;
  value = user_value address;
  num_hits = 0;
  creation_time = 10;
  deletion_time = 0;
  access_time = 10;
}

abbrev pub header : Header
header = record {
  locked = false;
  num_hits = 0;
  num_misses = 0;
  num_inserts = 1;
  expunges = 0;
  deleted_list = [];
  start_time = 1;
  busy = false;
  num_entries = pos 1;
  mem_size = 96;
  lastkey = no_key;
  freed = [];
}

abbrev pub cache : Cache
cache = record {
  header = header;
  slots = (user_slot_at 6 100 ∷ []) ∷ [] ∷ [];
  num_slots = 2;
  gc_ttl = 0;
  ttl = 0;
  has_lock = 0;
}

pub cache-IsIdle : IsIdle cache
cache-IsIdle = record { unlocked = refl; has_lock = refl; width = refl; some_slots = omega arith }

cache-filed : (j : ℕ) → tally (has_key (misfiled j 2)) (get_or cache.slots j []) ≡ 0
cache-filed zero = refl
cache-filed (suc zero) = refl
cache-filed (suc (suc j)) = refl

pub cache-IsValid : IsValid cache
cache-IsValid = record { idle = cache-IsIdle; entries = refl; memory = refl; filed = cache-filed }

abbrev pub plenty : Alloc
plenty = record { slot = true; text = true }

abbrev pub pool : PoolRef
pool = record { address = 200; size = 96 }

-- A value stored under a second key.
abbrev pub insertion : Call
insertion =
    user_inserts 11 1 11 true false plenty pool (user_key first_byte (8 ∷ []) 11) (user_value 200)

abbrev memory : Memory
memory = record { avail_mem = λ c. length c; avail_size = λ c n. false; shm_size = 100 }

abbrev pub removals : List Call
removals = user_deletes 12 (6 ∷ []) ∷ insertion ∷ clears 13 ∷ expunges memory 14 14 50 ∷ []

abbrev pub state_of : {A : Type 0} → Run A → Cache
state_of (ok a c) = c
state_of deadlock = cache
state_of dangling = cache
