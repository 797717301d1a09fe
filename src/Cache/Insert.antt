-- ===== src/Cache/Insert.antt =====
-- apc_cache.c: `make_slot` and the three ways to insert.
use pecl_caching_apc.Base.{
  ℕ, ◌%◌, ◌^◌, ℤ, pos, negsuc, Bool, true, false, not, ◌&&◌, ◌||◌, List, [], ◌∷◌, Option, none,
  some, ◌==◌, if◌then◌else◌, add64, increment, length,
}
use pecl_caching_apc.Cache.Types.{KeyData, Key, KeyId, Entry, PoolRef, Slot, Chain, Header, Cache}
use pecl_caching_apc.Cache.Slots.{
  user_match, file_match, same_type, hard_expired, idle, remove_slot, process_pending_removals,
}
use pecl_caching_apc.Cache.Lock.{Cmd, pure, under_lock, on_chain}

-- Whether the two allocations of `make_slot` in the value's pool succeed: the slot itself, and the
-- copy of the key's text.
pub record Alloc : Type 0 where
  pub slot : Bool
  pub text : Bool

-- `make_slot`, whose `next` is the place in the chain. The copied text has the same bytes.
unfoldable pub make_slot : Alloc → Key → Entry → ℕ → Option Slot
make_slot alloc key value t =
    let new : Slot = record {
      key = key;
      value = value;
      num_hits = 0;
      creation_time = t;
      deletion_time = 0;
      access_time = t;
    } in
    let copied = if alloc.text then some new else none in
    if alloc.slot
    then (elim key.key_data [
      | KeyData.file d i ↦ some new
      | KeyData.user i ↦ copied
      | KeyData.fpfile p ↦ copied
    ])
    else none

-- How a walk ends: an entry is in the way, `make_slot` failed, or the new slot is in its place.
pub data Outcome : Type 0 where
  kept no_memory inserted : Outcome

-- `*slot = make_slot(&key, value, *slot, t)`: a failed `make_slot` writes NULL over the rest.
abbrev pub place : Option Slot → Chain → Chain
place none rest = []
place (some s) rest = s ∷ rest

abbrev pub placed : Option Slot → Outcome
placed none = no_memory
placed (some s) = inserted

-- Whether the slot of the same file gives way: always, but to a file key of the same time.
abbrev pub replaces : (force_update : Bool) → Key → Slot → Bool
replaces force_update key s = elim key.key_data [
  | KeyData.file d i ↦ force_update || not (s.key.mtime == key.mtime)
  | _ ↦ true
]

-- The loop of `_apc_cache_insert` and the placing of the slot.
unfoldable pub insert_walk :
    (now ttl t : ℕ) (force_update : Bool) (key : Key) (new : Option Slot)
    → Chain
    → Header
    → Outcome × Header × Chain
insert_walk now ttl t force_update key new [] hd = (placed new, hd, place new [])
insert_walk now ttl t force_update key new (s ∷ c) hd =
    let stale = same_type key s && not (file_match key s) && idle ttl t s in
    let rest =
      insert_walk now ttl t force_update key new c (if stale then remove_slot now s hd else hd) in
    if file_match key s
    then (if replaces force_update key s
        then (placed new, remove_slot now s hd, place new c)
        else (kept, hd, s ∷ c))
    else (rest.0, rest.1, if stale then rest.2 else s ∷ rest.2)

-- The end of both inserts: the header counts the new entry.
unfoldable pub count_inserted : (size : ℕ) → Outcome → Header → Header
count_inserted size kept hd = hd
count_inserted size no_memory hd = hd
count_inserted size inserted hd = record hd {
  mem_size = add64 hd.mem_size size;
  num_entries = increment hd.num_entries;
  num_inserts = add64 hd.num_inserts 1;
}

-- `_apc_cache_insert` for a value that is not NULL; `pool` is the context's.
unfoldable pub insert_locked :
    (now t : ℕ) (force_update : Bool) (alloc : Alloc) (pool : PoolRef) (key : Key) (value : Entry)
    → Cache
    → Outcome × Cache
insert_locked now t force_update alloc pool key value c =
    let c₁ = record c { header = process_pending_removals c.gc_ttl now c.header } in
    let new = make_slot alloc key (record value { mem_size = pool.size }) t in
    let r = on_chain (key.h % c.num_slots) (insert_walk now c.ttl t force_update key new) c₁ in
    let c₂ = r.1 in (r.0, record c₂ { header = count_inserted pool.size (r.0) c₂.header })

abbrev pub to_int : Outcome → ℤ
to_int kept = pos 0
to_int no_memory = negsuc 0
to_int inserted = pos 1

-- `_apc_cache_insert`
unfoldable pub insert_value :
    (now t : ℕ) (force_update : Bool) (alloc : Alloc) (pool : PoolRef) (key : Key)
    → Option Entry
    → Cache
    → ℤ × Cache
insert_value now t force_update alloc pool key none c = (pos 0, c)
insert_value now t force_update alloc pool key (some value) c =
    let r = insert_locked now t force_update alloc pool key value c in (to_int (r.0), r.1)

-- `apc_cache_insert`
unfoldable pub insert :
    (now t : ℕ) (force_update : Bool) (alloc : Alloc) (pool : PoolRef) (key : Key)
    → Option Entry
    → Cmd ℤ
insert now t force_update alloc pool key value =
    under_lock (insert_value now t force_update alloc pool key value)

-- The loop of `apc_cache_insert_mult`, which leaves `rval[i]` unset for a NULL value. Each value
-- is inserted from its own pool.
unfoldable pub insert_all :
    (now t : ℕ) (force_update : Bool)
    → List (Alloc × Key × Option Entry)
    → Cache
    → List (Option ℤ) × Cache
insert_all now t force_update [] c = ([], c)
insert_all now t force_update ((alloc, key, none) ∷ rest) c =
    let r = insert_all now t force_update rest c in (none ∷ r.0, r.1)
insert_all now t force_update ((alloc, key, some value) ∷ rest) c =
    let one = insert_value now t force_update alloc value.pool key (some value) c in
    let r = insert_all now t force_update rest (one.1) in (some (one.0) ∷ r.0, r.1)

-- `apc_cache_insert_mult`
unfoldable pub insert_mult :
    (now t : ℕ) (force_update : Bool) → List (Alloc × Key × Option Entry) → Cmd (List (Option ℤ))
insert_mult now t force_update entries = under_lock (insert_all now t force_update entries)

-- The identifier or path of a key.
abbrev pub key_text : Key → List ℕ
key_text key = elim key.key_data [
  | KeyData.file d i ↦ []
  | KeyData.user identifier ↦ identifier
  | KeyData.fpfile fullpath ↦ fullpath
]

-- `apc_cache_is_last_key`
unfoldable pub is_last_key : (slam_defense : Bool) (pid t : ℕ) → Key → KeyId → Bool
is_last_key slam_defense pid t key lastkey =
    lastkey.h == key.h
    && length (key_text key) == lastkey.keylen
    && lastkey.mtime == t
    && not (pid == lastkey.pid)
    && slam_defense

-- The loop of `apc_cache_user_insert` and the placing of the slot.
unfoldable pub user_insert_walk :
    (now ttl t : ℕ) (exclusive : Bool) (key : Key) (new : Option Slot)
    → Chain
    → Header
    → Outcome × Header × Chain
user_insert_walk now ttl t exclusive key new [] hd = (placed new, hd, place new [])
user_insert_walk now ttl t exclusive key new (s ∷ c) hd =
    let stale = idle ttl t s || hard_expired t s in
    let rest =
      user_insert_walk now ttl t exclusive key new c (if stale then remove_slot now s hd else hd) in
    if user_match key.h (key_text key) s
    then (if exclusive && not (hard_expired t s)
        then (kept, hd, s ∷ c)
        else (placed new, remove_slot now s hd, place new c))
    else (rest.0, rest.1, if stale then rest.2 else s ∷ rest.2)

-- The part of `apc_cache_user_insert` under the lock. `lastkey->h` is an `unsigned int`, so it
-- keeps the low 32 bits of the hash.
unfoldable pub user_insert_locked :
    (now pid t : ℕ) (exclusive : Bool) (alloc : Alloc) (pool : PoolRef) (key : Key) (value : Entry)
    → Cache
    → Outcome × Cache
user_insert_locked now pid t exclusive alloc pool key value c =
    let hd = c.header in
    let named = record hd {
      lastkey = record { h = key.h % 2 ^ 32; keylen = length (key_text key); mtime = t; pid = pid };
    } in
    let c₁ = record c { header = process_pending_removals c.gc_ttl now named } in
    let new = make_slot alloc key (record value { mem_size = pool.size }) t in
    let r = on_chain (key.h % c.num_slots) (user_insert_walk now c.ttl t exclusive key new) c₁ in
    let c₂ = r.1 in (r.0, record c₂ { header = count_inserted pool.size (r.0) c₂.header })

abbrev pub is_inserted : Outcome → Bool
is_inserted inserted = true
is_inserted _ = false

-- The locked part, with the result that it reports.
abbrev pub user_insert_section :
    (now pid t : ℕ) (exclusive : Bool) (alloc : Alloc) (pool : PoolRef) (key : Key) (value : Entry)
    → Cache
    → Bool × Cache
user_insert_section now pid t exclusive alloc pool key value c =
    let r = user_insert_locked now pid t exclusive alloc pool key value c in
    (is_inserted (r.0), r.1)

-- `apc_cache_user_insert`. The busy flag and the last key are read without the lock.
unfoldable pub user_insert :
    (now pid t : ℕ) (slam_defense exclusive : Bool) (alloc : Alloc) (pool : PoolRef) (key : Key)
    → Option Entry
    → Cmd Bool
user_insert now pid t slam_defense exclusive alloc pool key none c = pure false c
user_insert now pid t slam_defense exclusive alloc pool key (some value) c =
    if c.header.busy || is_last_key slam_defense pid t key c.header.lastkey
    then pure false c
    else under_lock (user_insert_section now pid t exclusive alloc pool key value) c
