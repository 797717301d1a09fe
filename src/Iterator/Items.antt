-- ===== src/Iterator/Items.antt =====
-- apc_iterator.c: the items, the search and the expiry test. Devices and inodes are below 2^63,
-- since the code prints them with `%ld`.
use pecl_caching_apc.Base.{
  ℕ, zero, suc, ◌+◌, ◌-◌, ◌/◌, ◌%◌, ◌^◌, Bool, true, false, not, ◌&&◌, ◌||◌, Option, none, some,
  List, [], ◌∷◌, ◌++◌, ◌==◌, ltb, if◌then◌else◌, length, take, bytes_eq, until_nul,
}
use pecl_caching_apc.Cache.Types.{KeyData, Entry, EntryData, Slot}
use pecl_caching_apc.Cache.Slots.{user_ttl}
use pecl_caching_apc.Iterator.{
  Field, type_is, filename_is, key_is, md5_is, device_is, inode_is, value_is, num_hits_is, mtime_is,
  creation_time_is, deletion_time_is, access_time_is, mem_size_is, ttl_is, ref_count_is, Item,
  Iterator,
}

-- The decimal digits of a number: a round for each, and twenty are enough for a word.
unfoldable pub digits : (fuel : ℕ) → ℕ → List ℕ
digits zero n = []
digits (suc fuel) n =
    let rest = digits fuel (n / 10) in (if ltb n 10 then [] else rest) ++ (48 + n % 10) ∷ []

-- `"%ld %ld"`
unfoldable pub print_ids : (device inode : ℕ) → List ℕ
unfolding digits
print_ids device inode = digits 20 device ++ 32 ∷ digits 20 inode

-- `value->data.file.filename`. For a user entry the union has `info` in that place.
abbrev pub filename_of : Entry → List ℕ
filename_of e = elim e.entry_data [
  | EntryData.file f o fs cs h ↦ f
  | EntryData.user info val ttl ↦ info
]

abbrev pub is_file_entry : Entry → Bool
is_file_entry e = elim e.entry_data [
  | EntryData.file f o fs cs h ↦ true
  | EntryData.user info val ttl ↦ false
]

-- The key of an item, as many bytes as `key_len` says: with the NUL of a user key, without it for
-- the others.
abbrev pub key_bytes : KeyData → List ℕ
key_bytes (KeyData.file device inode) = print_ids device inode
key_bytes (KeyData.user identifier) = identifier
key_bytes (KeyData.fpfile path) = path

unfoldable pub item_key : Slot → List ℕ
item_key s = key_bytes s.key.key_data

abbrev pub has_bit : (format bit : ℕ) → Bool
has_bit format bit = format / 2 ^ bit % 2 == 1

abbrev pub member : Bool → Field → List Field
member b f = if b then f ∷ [] else []

-- The members that only a file key has.
abbrev pub id_members : (format : ℕ) → KeyData → List Field
id_members format (KeyData.file device inode) =
    member (has_bit format 3) (device_is device) ++ member (has_bit format 4) (inode_is inode)
id_members format (KeyData.user identifier) = []
id_members format (KeyData.fpfile path) = []

-- "file" and "user"
abbrev pub type_name : Entry → List ℕ
type_name e = if is_file_entry e then 102 ∷ 105 ∷ 108 ∷ 101 ∷ [] else 117 ∷ 115 ∷ 101 ∷ 114 ∷ []

-- The name of a file entry: from the entry, or from the key.
abbrev pub named : KeyData → (filename : List ℕ) → List ℕ
named (KeyData.file device inode) filename = filename
named (KeyData.user identifier) filename = identifier
named (KeyData.fpfile path) filename = path

abbrev pub name_of : Slot → List ℕ
name_of s = named s.key.key_data (filename_of s.value)

unfoldable pub item_filename_key : Slot → List ℕ
item_filename_key s = name_of s

abbrev pub value_of : Entry → ℕ
value_of e = elim e.entry_data [
  | EntryData.file f o fs cs h ↦ 0
  | EntryData.user info val ttl ↦ val
]

-- `apc.file_md5`, `make_digest` of the engine, and the copy of a value.
module _ (file_md5 : Bool) (make_digest : List ℕ → List ℕ) (fetch_zval : ℕ → ℕ) where
  -- `apc_iterator_item_ctor`
  unfoldable pub item_ctor : (format : ℕ) → Slot → Item
  unfolding item_key item_filename_key
  item_ctor format s =
      let e = s.value in
      let is_file = is_file_entry e in
      record {
        key = item_key s;
        filename_key = item_filename_key s;
        value =
            member (has_bit format 0) (type_is (type_name e))
            ++ member (has_bit format 2 && is_file) (filename_is (name_of s))
            ++ id_members format s.key.key_data
            ++ member (has_bit format 1) (key_is (take (length (item_key s) - 1) (item_key s)))
            ++ member (has_bit format 5 && not is_file) (value_is (fetch_zval (value_of e)))
            ++ member (has_bit format 6 && (is_file && file_md5)) (md5_is (make_digest s.key.md5))
            ++ member (has_bit format 7) (num_hits_is s.num_hits)
            ++ member (has_bit format 8) (mtime_is s.key.mtime)
            ++ member (has_bit format 9) (creation_time_is s.creation_time)
            ++ member (has_bit format 10) (deletion_time_is s.deletion_time)
            ++ member (has_bit format 11) (access_time_is s.access_time)
            ++ member (has_bit format 12) (ref_count_is e.ref_count)
            ++ member (has_bit format 13) (mem_size_is e.mem_size)
            ++ member (has_bit format 14 && not is_file) (ttl_is (user_ttl e));
      }

-- The test of one filter, which is absent or not.
abbrev pub passes : Option (List ℕ → Bool) → Bool → List ℕ → Bool
passes none before l = before
passes (some f) before l = f l

-- The second name of a file, which only the array of keys is asked for.
abbrev pub second_name : Option (List ℕ → Bool) → KeyData → Bool → Bool
second_name none kd found = found
second_name (some f) (KeyData.file device inode) found =
    found || f (print_ids device inode ++ 0 ∷ [])
second_name (some f) (KeyData.user identifier) found = found
second_name (some f) (KeyData.fpfile path) found = found

-- `apc_flip_hash` of an array of strings, by what `zend_hash_exists` finds in it: the strings with
-- the NUL that the table's keys count.
abbrev pub flip_hash : List (List ℕ) → List ℕ → Bool
flip_hash [] l = false
flip_hash (n ∷ names) l = bytes_eq l (n ++ 0 ∷ []) || flip_hash names l

-- `apc_iterator_search_match`
unfoldable pub search_match : Iterator → Slot → Bool
search_match it s =
    let by_pcre = passes it.regex true (until_nul (name_of s)) in
    let by_hash = passes it.search_hash by_pcre (name_of s) in
    second_name it.search_hash s.key.key_data by_hash

-- `apc_iterator_check_expiry`. Where `t` is below the ttl the last difference is negative in C and
-- 0 here, and no access time is below either.
unfoldable pub check_expiry : (ttl t : ℕ) → Slot → Bool
check_expiry ttl t s = elim s.value.entry_data [
  | EntryData.user info val own ↦
      if ltb 0 own
      then not (ltb (s.creation_time + own) t)
      else not (ltb 0 ttl && ltb (s.creation_time + ttl) t)
  | EntryData.file f o fs cs h ↦ not (ltb s.access_time (t - ttl))
]
