-- ===== src/Cache/Types.antt =====
-- The structures of apc_cache.h. Pointers to things that the cache only passes on are numbers.
use pecl_caching_apc.Base.{ℕ, ℤ, Bool, Option, List}

-- `data` and `type` of `apc_cache_key_t`: the type tag is the constructor. The bytes of a user
-- key are the `identifier_len` bytes of its identifier, those of a path stop before its NUL.
pub data KeyData : Type 0 where
  file : (device inode : ℕ) → KeyData
  user : (identifier : List ℕ) → KeyData
  fpfile : (fullpath : List ℕ) → KeyData

-- `apc_cache_key_t`
pub record Key : Type 0 where
  pub key_data : KeyData
  pub h : ℕ
  pub mtime : ℕ
  pub md5 : List ℕ

-- `apc_keyid_t`, whose `h` is 32 bits wide
pub record KeyId : Type 0 where
  pub h : ℕ
  pub keylen : ℕ
  pub mtime : ℕ
  pub pid : ℕ

-- What `memset(.., 0, ..)` leaves.
abbrev pub no_key : KeyId
no_key = record { h = 0; keylen = 0; mtime = 0; pid = 0 }

-- `data` and `type` of `apc_cache_entry_t`. Of the compiled code the cache itself touches the
-- reference counts only: of the op_array, of each function and of each class.
pub data EntryData : Type 0 where
  file :
      (filename : List ℕ) (op_array : Option ℕ) (functions classes : List ℕ) (halt_offset : ℤ)
      → EntryData
  user : (info : List ℕ) (val ttl : ℕ) → EntryData

-- `apc_pool`, of which the cache reads the size.
pub record PoolRef : Type 0 where
  pub address : ℕ
  pub size : ℕ

-- `apc_cache_entry_t`; `address` is the pointer that clients hold.
pub record Entry : Type 0 where
  pub address : ℕ
  pub entry_data : EntryData
  pub ref_count : ℤ
  pub mem_size : ℕ
  pub pool : PoolRef

-- `slot_t`; a chain of `next` pointers is a list.
pub record Slot : Type 0 where
  pub key : Key
  pub value : Entry
  pub num_hits : ℕ
  pub creation_time : ℕ
  pub deletion_time : ℕ
  pub access_time : ℕ

abbrev pub Chain : Type 0
Chain = List Slot

-- `cache_header_t`, with its lock, and the slots whose pools have been destroyed, newest first.
pub record Header : Type 0 where
  pub locked : Bool
  pub num_hits : ℕ
  pub num_misses : ℕ
  pub num_inserts : ℕ
  pub expunges : ℕ
  pub deleted_list : Chain
  pub start_time : ℕ
  pub busy : Bool
  pub num_entries : ℤ
  pub mem_size : ℕ
  pub lastkey : KeyId
  pub freed : Chain

-- `apc_cache_t`. `gc_ttl` and `ttl` are not negative.
pub record Cache : Type 0 where
  pub header : Header
  pub slots : List Chain
  pub num_slots : ℕ
  pub gc_ttl : ℕ
  pub ttl : ℕ
  pub has_lock : ℕ
