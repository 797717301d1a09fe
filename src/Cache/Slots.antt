-- ===== src/Cache/Slots.antt =====
-- apc_cache.c: removal of slots, the pending list, the key tests, and the expiry tests.
use pecl_caching_apc.Base.{
  ℕ, zero, suc, ◌+◌, ◌-◌, Bool, true, false, not, ◌&&◌, ◌||◌, List, [], ◌∷◌, ◌++◌, none, some, map,
  ◌==◌, ltb, if◌then◌else◌, add64, sub64, increment, decrement, is_positive, length,
}
use pecl_caching_apc.Cache.Types.{KeyData, Key, Entry, EntryData, Slot, Chain, Header}

-- `memcmp(a, b, n) == 0`. A string that ends before `n` bytes do differs from any other there.
abbrev pub mem_eq : ℕ → List ℕ → List ℕ → Bool
mem_eq zero a b = true
mem_eq (suc n) [] b = false
mem_eq (suc n) (x ∷ a) [] = false
mem_eq (suc n) (x ∷ a) (y ∷ b) = x == y && mem_eq n a b

-- `key_equals`
unfoldable pub key_equals : ℕ → ℕ → ℕ → ℕ → Bool
key_equals inode device inode' device' = inode == inode' && device == device'

-- The test of the user functions on a slot. The user cache holds user keys only.
unfoldable pub user_match : ℕ → List ℕ → Slot → Bool
user_match h strkey s = elim s.key.key_data [
  | KeyData.user identifier ↦ h == s.key.h && mem_eq (length strkey) identifier strkey
  | KeyData.file d i ↦ false
  | KeyData.fpfile p ↦ false
]

-- The two tests of the file functions: the types agree, and so do device and inode, or the hashes
-- and the paths with their NUL. No caller passes a user key, which C would take for a path.
unfoldable pub file_match : Key → Slot → Bool
file_match key s = elim key.key_data [
  | KeyData.file device inode ↦ (elim s.key.key_data [
    | KeyData.file device' inode' ↦ key_equals inode' device' inode device
    | KeyData.user i ↦ false
    | KeyData.fpfile p ↦ false
  ])
  | KeyData.fpfile path ↦ (elim s.key.key_data [
    | KeyData.fpfile path' ↦
        key.h == s.key.h && mem_eq (length path + 1) (path' ++ 0 ∷ []) (path ++ 0 ∷ [])
    | KeyData.user i ↦ false
    | KeyData.file d i ↦ false
  ])
  | KeyData.user i ↦ false
]

-- `key.type == (*slot)->key.type`
unfoldable pub same_type : Key → Slot → Bool
same_type key s = elim key.key_data [
  | KeyData.file d i ↦ (elim s.key.key_data [ KeyData.file d' i' ↦ true | _ ↦ false ])
  | KeyData.user i ↦ (elim s.key.key_data [ KeyData.user i' ↦ true | _ ↦ false ])
  | KeyData.fpfile p ↦ (elim s.key.key_data [ KeyData.fpfile p' ↦ true | _ ↦ false ])
]

-- `value->data.user.ttl`
abbrev pub user_ttl : Entry → ℕ
user_ttl e = elim e.entry_data [
  | EntryData.user info val ttl ↦ ttl
  | EntryData.file f o fs cs h ↦ 0
]

-- `ttl && (time_t)(creation_time + ttl) < t`: the hard limit of a user entry has passed.
unfoldable pub hard_expired : ℕ → Slot → Bool
hard_expired t s = ltb 0 (user_ttl s.value) && ltb (s.creation_time + user_ttl s.value) t

-- `cache->ttl && access_time < (t - cache->ttl)`. Where `t` is below the ttl the difference is
-- negative in C and 0 here, and no access time is below either.
unfoldable pub idle : (ttl t : ℕ) → Slot → Bool
idle ttl t s = ltb 0 ttl && ltb s.access_time (t - ttl)

-- `apc_pool_destroy` of the slot's pool, in which the slot and its entry live.
unfoldable pub free_slot : Slot → Header → Header
free_slot s hd = record hd { freed = s ∷ hd.freed }

-- `remove_slot`; the caller drops the slot from its chain, and `now` is `time(0)`.
unfoldable pub remove_slot : (now : ℕ) → Slot → Header → Header
remove_slot now dead hd =
    let hd' = record hd {
      mem_size = sub64 hd.mem_size dead.value.mem_size;
      num_entries = decrement hd.num_entries;
    } in
    if is_positive dead.value.ref_count
    then record hd' { deleted_list = record dead { deletion_time = now } ∷ hd.deleted_list }
    else free_slot dead hd'

-- The loop of `process_pending_removals`.
unfoldable pub pending : (gc_ttl now : ℕ) → Chain → Header → Header × Chain
pending gc_ttl now [] hd = (hd, [])
pending gc_ttl now (s ∷ l) hd =
    let gc_sec = if ltb 0 gc_ttl then now - s.deletion_time else 0 in
    let dead = not (is_positive s.value.ref_count) || ltb gc_ttl gc_sec in
    let rest = pending gc_ttl now l (if dead then free_slot s hd else hd) in
    (rest.0, if dead then rest.1 else s ∷ rest.1)

-- `process_pending_removals`
unfoldable pub process_pending_removals : (gc_ttl now : ℕ) → Header → Header
process_pending_removals gc_ttl now hd =
    let r = pending gc_ttl now hd.deleted_list hd in record (r.0) { deleted_list = r.1 }

-- `while (p) remove_slot(cache, &p)`
unfoldable pub remove_chain : (now : ℕ) → Chain → Header → Header
remove_chain now [] hd = hd
remove_chain now (s ∷ c) hd = remove_chain now c (remove_slot now s hd)

-- `BIG_VALUE`
abbrev pub big_value : ℕ
big_value = 1000

-- `prevent_garbage_collection`
unfoldable pub prevent_garbage_collection : Entry → Entry
prevent_garbage_collection e = elim e.entry_data [
  | EntryData.file filename op_array functions classes halt ↦ record e {
    entry_data =
        EntryData.file filename (elim op_array [ none ↦ none | some n ↦ some big_value ])
          (map (λ n. big_value) functions) (map (λ n. big_value) classes) halt;
  }
  | EntryData.user info val ttl ↦ e
]

-- What a hit does to a slot: the two counters and the access time.
unfoldable pub touch : (t : ℕ) → Slot → Slot
touch t s = record s {
  num_hits = add64 s.num_hits 1;
  value = let e = s.value in record e { ref_count = increment e.ref_count };
  access_time = t;
}
