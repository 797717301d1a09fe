-- ===== src/Iterator.antt =====
-- apc_iterator.c and apc_iterator.h: `APCIterator`, which lists the slots of a cache in chunks. The
-- iterator itself is request memory; it reads the cache under the cache's lock.
pub mod Items
pub mod Fetch
pub mod Methods
pub mod Walk
pub mod Complete
pub mod Deleted
pub mod Names
pub mod Totals
mod Tests
use pecl_caching_apc.Base.{
  ℕ, ◌-◌, ◌^◌, ℤ, pos, negsuc, Bool, true, false, not, Option, none, some, List, [], ◌∷◌, ◌==◌, ltb,
  if◌then◌else◌,
}
use pecl_caching_apc.Stack
use pecl_caching_apc.Stack.{Stack}

-- One member of an item's array, by its `APC_ITER_*` bit; `value_is` has the copied value.
pub data Field : Type 0 where
  type_is filename_is key_is md5_is : List ℕ → Field
  device_is inode_is value_is num_hits_is mtime_is : ℕ → Field
  creation_time_is deletion_time_is access_time_is mem_size_is ttl_is : ℕ → Field
  ref_count_is : ℤ → Field

-- `apc_iterator_item_t`; the bytes of the strings are those that their lengths count.
pub record Item : Type 0 where
  pub key : List ℕ
  pub filename_key : List ℕ
  pub value : List Field

-- `fetch`, by the list that it reads.
pub data Listing : Type 0 where
  active deleted : Listing

-- `apc_iterator_t` once it is initialized. `regex` is what `pcre_exec` finds for a string, and
-- `search_hash` what `zend_hash_exists` finds for the bytes of a key.
pub record Iterator : Type 0 where
  pub format : ℕ
  pub fetch : Listing
  pub on_user_cache : Bool
  pub slot_idx : ℕ
  pub chunk_size : ℕ
  pub stack : Stack Item
  pub stack_idx : ℕ
  pub regex : Option (List ℕ → Bool)
  pub search_hash : Option (List ℕ → Bool)
  pub key_idx : ℕ
  pub totals_flag : Bool
  pub hits : ℕ
  pub size : ℕ
  pub count : ℕ

-- The `search` argument of the constructor: none, a string with what `pcre_get_compiled_regex`
-- makes of it, or an array with the table that `apc_flip_hash` makes of it. An empty string is none.
pub data Search : Type 0 where
  unfiltered : Search
  by_regex : Option (List ℕ → Bool) → Search
  by_array : (List ℕ → Bool) → Search

-- `APC_ITER_ALL`
abbrev pub iter_all : ℕ
iter_all = 0xffffffff

abbrev pub regex_of : Search → Option (List ℕ → Bool)
regex_of unfiltered = none
regex_of (by_regex r) = r
regex_of (by_array a) = none

abbrev pub array_of : Search → Option (List ℕ → Bool)
array_of unfiltered = none
array_of (by_regex r) = none
array_of (by_array a) = some a

-- A string that `pcre_get_compiled_regex` refuses.
abbrev pub is_refused : Search → Bool
is_refused unfiltered = false
is_refused (by_regex none) = true
is_refused (by_regex (some r)) = false
is_refused (by_array a) = false

-- The `list` argument: `APC_LIST_ACTIVE` or `APC_LIST_DELETED`.
abbrev pub listing : ℕ → Option Listing
listing list = if list == 1 then some active else (if list == 2 then some deleted else none)

abbrev pub begun :
    (on_user_cache : Bool) (search : Search) (format chunk_size : ℕ)
    → Option Listing
    → Option Iterator
begun on_user_cache search format chunk_size none = none
begun on_user_cache search format chunk_size (some fetch) = some record {
  format = format;
  fetch = fetch;
  on_user_cache = on_user_cache;
  slot_idx = 0;
  chunk_size = if chunk_size == 0 then 100 else chunk_size;
  stack = Stack.create chunk_size;
  stack_idx = 0;
  regex = regex_of search;
  search_hash = array_of search;
  key_idx = 0;
  totals_flag = false;
  hits = 0;
  size = 0;
  count = 0;
}

-- `APCIterator::__construct`. Each error is fatal or returns before `initialized` is set: none.
unfoldable pub construct :
    (enabled on_user_cache : Bool) (search : Search) (format : ℕ) (chunk_size : ℤ) (list : ℕ)
    → Option Iterator
construct enabled on_user_cache search format (negsuc n) list = none
construct enabled on_user_cache search format (pos chunk_size) list =
    if not enabled
    then none
    else (if ltb iter_all format
        then none
        else (if is_refused search
            then none
            else begun on_user_cache search format chunk_size (listing list)))
