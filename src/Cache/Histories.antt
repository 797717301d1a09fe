-- ===== src/Cache/Histories.antt =====
-- Histories of a cache: the operations of apc_cache.c as data, each with its arguments, times and
-- the outcome of its allocations, run one after the other. The state at which each begins is one
-- that no process holds locked.
use pecl_caching_apc.Base.{
  ℕ, ◌%◌, ◌≡◌, Bool, true, false, List, [], ◌∷◌, Option, some, ◌==◌, not, ◌||◌, add64,
  if◌then◌else◌,
}
use pecl_caching_apc.Cache.Types.{KeyData, Key, Entry, PoolRef}
use pecl_caching_apc.Cache.Lock.{Cmd, pure, ◌>>◌}
use pecl_caching_apc.Cache.Insert.{Alloc, insert, user_insert}
use pecl_caching_apc.Cache.Find.{find, user_find, user_exists, user_update, user_delete, delete}
use pecl_caching_apc.Cache.Clean.{Memory, clear, expunge}

-- A call of the cache, but for the release of an entry.
pub data Call : Type 0 where
  inserts :
      (now t : ℕ) (force_update : Bool) (alloc : Alloc) (pool : PoolRef) (key : Key) (value : Entry)
      → Call
  user_inserts :
      (now pid t : ℕ) (slam_defense exclusive : Bool) (alloc : Alloc) (pool : PoolRef) (key : Key)
      (value : Entry)
      → Call
  finds : (now : ℕ) (key : Key) (t : ℕ) → Call
  user_finds : (now : ℕ) (strkey : List ℕ) (t : ℕ) → Call
  user_checks : (strkey : List ℕ) (t : ℕ) → Call
  user_updates :
      (now : ℕ) (strkey : List ℕ) (skip : Entry → Bool) (updater : Entry → Bool × Entry) → Call
  user_deletes : (now : ℕ) (strkey : List ℕ) → Call
  deletes : (now : ℕ) (key : Option Key) → Call
  clears : (now : ℕ) → Call
  expunges : (memory : Memory) (now t size : ℕ) → Call

module _ (nhash : List ℕ → ℕ) where
  -- A call, its result left aside.
  unfoldable pub exec : Call → Cmd (Unit {0})
  exec (inserts now t force alloc pool key value) = do
    insert now t force alloc pool key (some value)
    pure tt
  exec (user_inserts now pid t slam exclusive alloc pool key value) = do
    user_insert now pid t slam exclusive alloc pool key (some value)
    pure tt
  exec (finds now key t) = do find now key t; pure tt
  exec (user_finds now strkey t) = do user_find nhash now strkey t; pure tt
  exec (user_checks strkey t) = do user_exists nhash strkey t; pure tt
  exec (user_updates now strkey skip updater) = do
    user_update nhash now strkey skip updater
    pure tt
  exec (user_deletes now strkey) = do user_delete nhash now strkey; pure tt
  exec (deletes now key) = do delete now key; pure tt
  exec (clears now) = clear now
  exec (expunges memory now t size) = expunge memory now t size

  unfoldable pub exec_all : List Call → Cmd (Unit {0})
  exec_all [] = pure tt
  exec_all (call ∷ calls) = do exec call; exec_all calls

-- A key of a file has the sum of its device and inode for a hash.
abbrev pub misfiled : (index num_slots : ℕ) → KeyData → ℕ → Bool
misfiled index num_slots d h = not (h % num_slots == index) || (elim d [
  | KeyData.file device inode ↦ not (h == add64 device inode)
  | KeyData.user identifier ↦ false
  | KeyData.fpfile fullpath ↦ false
])

abbrev pub IsKey : Key → Type 0
IsKey key = elim key.key_data [
  | KeyData.file device inode ↦ key.h ≡ add64 device inode
  | KeyData.user identifier ↦ Unit {0}
  | KeyData.fpfile fullpath ↦ Unit {0}
]

-- An updater writes the value of an entry and nothing else of it.
abbrev pub IsUpdater : (Entry → Bool × Entry) → Type 0
IsUpdater updater =
    (e : Entry)
    → ((updater e).1.address ≡ e.address)
      × ((updater e).1.mem_size ≡ e.mem_size)
      × ((updater e).1.ref_count ≡ e.ref_count)

abbrev pub Succeeds : Alloc → Type 0
Succeeds alloc = (alloc.slot ≡ true) × (alloc.text ≡ true)

-- What the calls need of their arguments: keys as the code makes them, updaters that keep to the
-- value, and memory for the slots of an insert.
abbrev pub IsLegal : Call → Type 0
IsLegal (inserts now t force alloc pool key value) = Succeeds alloc × IsKey key
IsLegal (user_inserts now pid t slam exclusive alloc pool key value) = Succeeds alloc × IsKey key
IsLegal (user_updates now strkey skip updater) = IsUpdater updater
IsLegal (finds now key t) = Unit
IsLegal (user_finds now strkey t) = Unit
IsLegal (user_checks strkey t) = Unit
IsLegal (user_deletes now strkey) = Unit
IsLegal (deletes now key) = Unit
IsLegal (clears now) = Unit
IsLegal (expunges memory now t size) = Unit

-- The entry that a call may bring in.
abbrev pub brings : ℕ → Call → ℕ
brings a (inserts now t force alloc pool key value) = if value.address == a then 1 else 0
brings a (user_inserts now pid t slam exclusive alloc pool key value) =
    if value.address == a then 1 else 0
brings a call = 0
