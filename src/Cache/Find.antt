-- ===== src/Cache/Find.antt =====
-- apc_cache.c: the lookups, the update in place, the deletions, and the release of an entry.
use pecl_caching_apc.Base.{
  ℕ, ◌+◌, ◌%◌, ℤ, pos, negsuc, Bool, true, false, not, ◌&&◌, List, [], ◌∷◌, ◌++◌, Option, none,
  some, map, ◌==◌, ltb, if◌then◌else◌, add64, decrement, tally,
}
use pecl_caching_apc.Cache.Types.{KeyData, Key, no_key, Entry, Slot, Chain, Header, Cache}
use pecl_caching_apc.Cache.Slots.{
  user_match, file_match, hard_expired, remove_slot, prevent_garbage_collection, touch,
}
use pecl_caching_apc.Cache.Lock.{dangling, Cmd, pure, ◌>>=◌, under_lock, under_safe_lock, on_chain}

-- The chain of a key: `hash(key)` for a file key, the stored hash for any other.
unfoldable pub slot_index : Key → ℕ → ℕ
slot_index key num_slots = elim key.key_data [
  | KeyData.file device inode ↦ add64 device inode % num_slots
  | _ ↦ key.h % num_slots
]

abbrev pub count_miss : Header → Header
count_miss hd = record hd { num_misses = add64 hd.num_misses 1 }

abbrev pub count_hit : Header → Header
count_hit hd = record hd { num_hits = add64 hd.num_hits 1 }

abbrev pub is_file : Key → Bool
is_file key = elim key.key_data [ KeyData.file d i ↦ true | _ ↦ false ]

-- What `apc_cache_find_slot` does to the slot that it returns.
unfoldable pub hit : (t : ℕ) → Slot → Slot
hit t s = let s' = touch t s in record s' { value = prevent_garbage_collection s'.value }

-- The loop of `apc_cache_find_slot`: a file that has changed since is removed, and missed.
unfoldable pub find_walk : (now t : ℕ) (key : Key) → Chain → Header → Option Slot × Header × Chain
find_walk now t key [] hd = (none, count_miss hd, [])
find_walk now t key (s ∷ c) hd =
    let rest = find_walk now t key c hd in
    if file_match key s
    then (if is_file key && not (s.key.mtime == key.mtime)
        then (none, count_miss (remove_slot now s hd), c)
        else (some (hit t s), count_hit hd, hit t s ∷ c))
    else (rest.0, rest.1, s ∷ rest.2)

-- `apc_cache_find_slot`
unfoldable pub find_slot : (now : ℕ) → Key → (t : ℕ) → Cmd (Option Slot)
find_slot now key t =
    under_lock (λ c. on_chain (slot_index key c.num_slots) (find_walk now t key) c)

abbrev pub entry_of : Option Slot → Option Entry
entry_of none = none
entry_of (some s) = some s.value

-- `apc_cache_find`
unfoldable pub find : (now : ℕ) → Key → (t : ℕ) → Cmd (Option Entry)
find now key t = do slot ← find_slot now key t; pure (entry_of slot)

-- The loop of `apc_cache_user_find`: an entry past its hard limit is removed, and missed.
unfoldable pub user_find_walk :
    (now t h : ℕ) (strkey : List ℕ) → Chain → Header → Option Entry × Header × Chain
user_find_walk now t h strkey [] hd = (none, count_miss hd, [])
user_find_walk now t h strkey (s ∷ c) hd =
    let rest = user_find_walk now t h strkey c hd in
    let s' = touch t s in
    if user_match h strkey s
    then (if hard_expired t s
        then (none, count_miss (remove_slot now s hd), c)
        else (some s'.value, count_hit hd, s' ∷ c))
    else (rest.0, rest.1, s ∷ rest.2)

-- The loop of `apc_cache_user_exists`, which writes nothing.
unfoldable pub user_exists_walk : (t h : ℕ) (strkey : List ℕ) → Chain → Option Entry
user_exists_walk t h strkey [] = none
user_exists_walk t h strkey (s ∷ c) =
    let rest = user_exists_walk t h strkey c in
    if user_match h strkey s then (if hard_expired t s then none else some s.value) else rest

-- The loop of `_apc_cache_user_update`. With a serializer, arrays and objects are left alone.
unfoldable pub user_update_walk :
    (now h : ℕ) (strkey : List ℕ) (skip : Entry → Bool) (updater : Entry → Bool × Entry)
    → Chain
    → Header
    → Bool × Header × Chain
user_update_walk now h strkey skip updater [] hd = (false, hd, [])
user_update_walk now h strkey skip updater (s ∷ c) hd =
    let rest = user_update_walk now h strkey skip updater c hd in
    let r = updater s.value in
    let k = s.key in
    if user_match h strkey s
    then (if skip s.value
        then (false, hd, s ∷ c)
        else (r.0, hd, record s { key = record k { mtime = now }; value = r.1 } ∷ c))
    else (rest.0, rest.1, s ∷ rest.2)

-- The loop of `apc_cache_user_delete` and of `apc_cache_delete`, by their tests.
unfoldable pub delete_walk : (now : ℕ) (test : Slot → Bool) → Chain → Header → Bool × Header × Chain
delete_walk now test [] hd = (false, hd, [])
delete_walk now test (s ∷ c) hd =
    let rest = delete_walk now test c hd in
    if test s then (true, remove_slot now s hd, c) else (rest.0, rest.1, s ∷ rest.2)

-- `nhash` is `zend_inline_hash_func` of the engine.
module _ (nhash : List ℕ → ℕ) where
  -- `apc_cache_user_find`
  unfoldable pub user_find : (now : ℕ) (strkey : List ℕ) (t : ℕ) → Cmd (Option Entry)
  user_find now strkey t c =
      let h = nhash strkey in
      if c.header.busy
      then pure none c
      else under_lock (λ d. on_chain (h % d.num_slots) (user_find_walk now t h strkey) d) c

  -- `apc_cache_user_exists`
  unfoldable pub user_exists : (strkey : List ℕ) (t : ℕ) → Cmd (Option Entry)
  user_exists strkey t c =
      let h = nhash strkey in
      if c.header.busy
      then pure none c
      else under_lock
          (λ d. on_chain (h % d.num_slots) (λ l hd. (user_exists_walk t h strkey l, hd, l)) d) c

  -- `_apc_cache_user_update`; `now` is `apc_time()`.
  unfoldable pub user_update :
      (now : ℕ) (strkey : List ℕ) (skip : Entry → Bool) (updater : Entry → Bool × Entry) → Cmd Bool
  user_update now strkey skip updater c =
      let h = nhash strkey in
      if c.header.busy
      then pure false c
      else under_lock
          (λ d. on_chain (h % d.num_slots) (user_update_walk now h strkey skip updater) d) c

  -- `apc_cache_user_delete`, which does not look at the busy flag.
  unfoldable pub user_delete : (now : ℕ) (strkey : List ℕ) → Cmd Bool
  user_delete now strkey =
      let h = nhash strkey in
      under_lock (λ d. on_chain (h % d.num_slots) (delete_walk now (user_match h strkey)) d)

-- The end of `apc_cache_delete`: the last key is forgotten only where nothing was found.
unfoldable pub forget : Bool × Cache → ℤ × Cache
forget (true, c) = (pos 1, c)
forget (false, c) =
    let hd = c.header in (pos 0, record c { header = record hd { lastkey = no_key } })

-- `apc_cache_delete`, given what `apc_cache_make_file_key` made of the filename.
unfoldable pub delete : (now : ℕ) → Option Key → Cmd ℤ
delete now none = pure (negsuc 0)
delete now (some key) =
    under_lock
      λ c. forget (on_chain (slot_index key c.num_slots) (delete_walk now (file_match key)) c)

abbrev pub has_address : ℕ → Slot → Bool
has_address a s = s.value.address == a

-- All the slots of the table, chain by chain.
abbrev pub flat : List Chain → Chain
flat [] = []
flat (l ∷ ls) = l ++ flat ls

-- `entry->ref_count--` through the client's pointer.
abbrev pub release_in : ℕ → Chain → Chain
release_in a = map λ s.
    let e = s.value in
    if e.address == a
    then record s { value = record e { ref_count = decrement e.ref_count } }
    else s

-- `CACHE_SAFE_DEC` under its lock.
unfoldable pub release_locked : ℕ → Cache → Unit {0} × Cache
release_locked a c =
    let hd = c.header in
    (
      tt,
      record c {
        slots = map (release_in a) c.slots;
        header = record hd { deleted_list = release_in a hd.deleted_list };
      },
    )

-- `apc_cache_release`
unfoldable pub release : ℕ → Cmd (Unit {0})
release a c =
    if ltb 0 (tally (has_address a) (flat c.slots) + tally (has_address a) c.header.deleted_list)
    then under_safe_lock (release_locked a) c
    else dangling
