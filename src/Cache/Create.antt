-- ===== src/Cache/Create.antt =====
-- apc_cache.c: `make_prime`, `apc_cache_create`, and the construction of keys and entries.
use pecl_caching_apc.Base.{
  ℕ, ◌+◌, ℤ, pos, Bool, true, false, not, ◌&&◌, ◌||◌, List, [], ◌∷◌, Option, none, some, ltb,
  if◌then◌else◌, add64, replicate, bytes_eq,
}
use pecl_caching_apc.Cache.Types.{KeyData, Key, no_key, EntryData, Entry, PoolRef, Cache}

-- `primes`, without the sentinel.
abbrev pub primes : List ℕ
primes =
    257 ∷ 521 ∷ 1031 ∷ 2053 ∷ 3079 ∷ 4099 ∷ 5147 ∷ 6151 ∷ 7177 ∷ 8209 ∷ 9221 ∷ 10243 ∷ 11273 ∷ 12289
    ∷ 13313 ∷ 14341 ∷ 15361 ∷ 16411 ∷ 17417 ∷ 18433 ∷ 19457 ∷ []

-- The loop of `make_prime`: `last` is `*(k-1)`.
unfoldable pub next_prime : ℕ → (last : ℕ) → List ℕ → ℕ
next_prime n last [] = last
next_prime n last (k ∷ ks) = if ltb n k then k else next_prime n k ks

-- `make_prime`
unfoldable pub make_prime : ℕ → ℕ
make_prime n = next_prime n 0 primes

-- `apc_cache_create`, if its shared memory could be allocated; a hint of zero or less is given as 0.
unfoldable pub create : (size_hint gc_ttl ttl now : ℕ) → Bool → Option Cache
create size_hint gc_ttl ttl now false = none
create size_hint gc_ttl ttl now true =
    let num_slots = make_prime (if ltb 0 size_hint then size_hint else 2000) in
    some (record {
      header = record {
        locked = false;
        num_hits = 0;
        num_misses = 0;
        num_inserts = 0;
        expunges = 0;
        deleted_list = [];
        start_time = now;
        busy = false;
        num_entries = pos 0;
        mem_size = 0;
        lastkey = no_key;
        freed = [];
      };
      slots = replicate num_slots [];
      num_slots = num_slots;
      gc_ttl = gc_ttl;
      ttl = ttl;
      has_lock = 0;
    })

-- The settings that `apc_cache_make_file_key` reads.
pub record Settings : Type 0 where
  pub fpstat : Bool
  pub canonicalize : Bool
  pub max_file_size : ℕ
  pub file_update_protection : ℕ
  pub force_file_update : Bool
  pub stat_ctime : Bool

-- `struct stat`
pub record FileStat : Type 0 where
  pub st_dev : ℕ
  pub st_ino : ℕ
  pub st_size : ℕ
  pub st_mtime : ℕ
  pub st_ctime : ℕ

-- What the function asks of the engine and the system, for one request: the translated path, the
-- server's own stat of it, the search of the include path, and `realpath`.
pub record Files : Type 0 where
  pub path_translated : Option (List ℕ)
  pub sapi_stat : Option FileStat
  pub search_paths : List ℕ → Option (List ℕ × FileStat)
  pub realpath : List ℕ → Option (List ℕ)
  pub is_absolute : List ℕ → Bool
  pub has_scheme : List ℕ → Bool

abbrev zero_md5 : List ℕ
zero_md5 = replicate 16 0

-- A key by path.
unfoldable pub path_key : (nhash : List ℕ → ℕ) (t : ℕ) → List ℕ → Key
path_key nhash t path = record {
  key_data = KeyData.fpfile path;
  h = nhash path;
  mtime = t;
  md5 = zero_md5;
}

-- The checks on the file, and the key by device and inode. `t - st_mtime` is a signed difference:
-- a file from the future is newer than any protection.
unfoldable pub stat_key : Settings → (t : ℕ) → FileStat → Option Key
stat_key set t sb =
    if ltb set.max_file_size sb.st_size
    then none
    else (if ltb 0 set.file_update_protection
          && ltb t (sb.st_mtime + set.file_update_protection)
          && not set.force_file_update
        then none
        else some (record {
          key_data = KeyData.file sb.st_dev sb.st_ino;
          h = add64 sb.st_dev sb.st_ino;
          mtime =
              if set.stat_ctime
              then (if ltb sb.st_mtime sb.st_ctime then sb.st_ctime else sb.st_mtime)
              else sb.st_mtime;
          md5 = zero_md5;
        }))

abbrev found_stat : Option (List ℕ × FileStat) → Option FileStat
found_stat none = none
found_stat (some (path, sb)) = some sb

-- The stat mode: the server's stat if the filename is the translated path and there is one.
unfoldable pub stat_mode : Settings → Files → (t : ℕ) → (translated filename : List ℕ) → Option Key
stat_mode set env t translated filename =
    let searched = found_stat (env.search_paths filename) in
    let own = if bytes_eq translated filename then env.sapi_stat else none in
    let sb : Option FileStat = elim own [ none ↦ searched | some b ↦ some b ] in
    elim sb [ none ↦ none | some b ↦ stat_key set t b ]

abbrev canonical : (nhash : List ℕ → ℕ) (t : ℕ) → Files → List ℕ → Option Key
canonical nhash t env filename = elim (env.search_paths filename) [
  | none ↦ none
  | some (path, sb) ↦ (elim (env.realpath path) [
    | none ↦ none
    | some p ↦ some (path_key nhash t p)
  ])
]

-- `apc_cache_make_file_key`
unfoldable pub make_file_key :
    (nhash : List ℕ → ℕ) → Settings → Files → Option (List ℕ) → (t : ℕ) → Option Key
make_file_key nhash set env none t = none
make_file_key nhash set env (some filename) t = elim env.path_translated [
  | none ↦ none
  | some translated ↦
      if not set.fpstat && (env.is_absolute filename || env.has_scheme filename)
      then some (path_key nhash t filename)
      else (if not set.fpstat && set.canonicalize
          then canonical nhash t env filename
          else stat_mode set env t translated filename)
]

-- The key that `apc_cache_make_user_key` fills in; it leaves the md5 of the caller's memory alone.
abbrev pub user_key : (nhash : List ℕ → ℕ) → List ℕ → (t : ℕ) → Key
user_key nhash identifier t = record {
  key_data = KeyData.user identifier;
  h = nhash identifier;
  mtime = t;
  md5 = [];
}

-- `apc_cache_make_user_key`
unfoldable pub make_user_key : (nhash : List ℕ → ℕ) → Option (List ℕ) → (t : ℕ) → Option Key
make_user_key nhash none t = none
make_user_key nhash (some identifier) t = some (user_key nhash identifier t)

-- `apc_cache_make_user_entry`: the address that the pool gives for the entry, the copy of the
-- text, and the copy of the value, each of which may fail.
unfoldable pub make_user_entry :
    (info : List ℕ) (ttl : ℕ) (pool : PoolRef) (entry : Option ℕ) (text : Bool) (val : Option ℕ)
    → Option Entry
make_user_entry info ttl pool none text val = none
make_user_entry info ttl pool (some address) false val = none
make_user_entry info ttl pool (some address) true none = none
make_user_entry info ttl pool (some address) true (some v) = some (record {
  address = address;
  entry_data = EntryData.user info v ttl;
  ref_count = pos 0;
  mem_size = 0;
  pool = pool;
})

-- `apc_cache_make_file_entry`, in the same way.
unfoldable pub make_file_entry :
    (filename : List ℕ) (op_array : Option ℕ) (functions classes : List ℕ) (halt_offset : ℤ)
    (pool : PoolRef) (entry : Option ℕ) (text : Bool)
    → Option Entry
make_file_entry filename op_array functions classes halt_offset pool none text = none
make_file_entry filename op_array functions classes halt_offset pool (some address) false = none
make_file_entry filename op_array functions classes halt_offset pool (some address) true =
    some (record {
      address = address;
      entry_data = EntryData.file filename op_array functions classes halt_offset;
      ref_count = pos 0;
      mem_size = 0;
      pool = pool;
    })
