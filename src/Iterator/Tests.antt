-- ===== src/Iterator/Tests.antt =====
-- Iterators over a small cache.
use pecl_caching_apc.Base.{ℕ, ◌≡◌, refl, pos, true, false, none, some, [], ◌∷◌, ◌++◌, map, arith}
use pecl_caching_apc.Cache.Types.{KeyData, no_key, EntryData, Slot, Cache}
use pecl_caching_apc.Cache.Lock.{ok}
use pecl_caching_apc.Stack
use pecl_caching_apc.Stack.{Stack}
use pecl_caching_apc.Stack.Laws.{create-Holds}
use pecl_caching_apc.Iterator.{Item, Iterator, Listing, active, deleted}
use pecl_caching_apc.Iterator.Items.{
  print_ids, digits, item_ctor, flip_hash, search_match, check_expiry,
}
use pecl_caching_apc.Iterator.Methods.{key_string, with_totals}
use pecl_caching_apc.Iterator.Walk.{select, wanted}
use pecl_caching_apc.Iterator.Complete.{IsIdle, foreach, drain, foreach-eq}
use pecl_caching_apc.Iterator.Deleted.{drain-endless}
use pecl_caching_apc.Iterator.Names.{item_of, key_string-collides, search_match-file}
use pecl_caching_apc.Iterator.Totals.{IsTotal, with_totals-eq}

abbrev slot_of : KeyData → EntryData → ℕ → Slot
slot_of kd ed n = record {
  key = record { key_data = kd; h = n; mtime = 0; md5 = [] };
  value = record {
    address = n;
    entry_data = ed;
    ref_count = pos 0;
    mem_size = 100;
    pool = record { address = n; size = 100 };
  };
  num_hits = n;
  creation_time = 50;
  deletion_time = 0;
  access_time = 60;
}

-- "a" and "b", of which the second one lives for five seconds.
abbrev first_slot : Slot
first_slot = slot_of (KeyData.user (97 ∷ 0 ∷ [])) (EntryData.user [] 7 0) 1

abbrev second_slot : Slot
second_slot = slot_of (KeyData.user (98 ∷ 0 ∷ [])) (EntryData.user [] 8 5) 2

abbrev third_slot : Slot
third_slot = slot_of (KeyData.user (99 ∷ 0 ∷ [])) (EntryData.user [] 9 0) 3

abbrev cache : Cache
cache = record {
  header = record {
    locked = false;
    num_hits = 0;
    num_misses = 0;
    num_inserts = 3;
    expunges = 0;
    deleted_list = first_slot ∷ second_slot ∷ [];
    start_time = 0;
    busy = false;
    num_entries = pos 3;
    mem_size = 300;
    lastkey = no_key;
    freed = [];
  };
  slots = (first_slot ∷ second_slot ∷ []) ∷ [] ∷ (third_slot ∷ []) ∷ [];
  num_slots = 3;
  gc_ttl = 0;
  ttl = 0;
  has_lock = 0;
}

cache-IsIdle : IsIdle cache
cache-IsIdle = record { unlocked = refl; none_held = refl; table = refl }

abbrev iterator : Listing → Stack Item → Iterator
iterator fetch stack = record {
  format = 2;
  fetch = fetch;
  on_user_cache = true;
  slot_idx = 0;
  chunk_size = 1;
  stack = stack;
  stack_idx = 0;
  regex = none;
  search_hash = none;
  key_idx = 0;
  totals_flag = false;
  hits = 0;
  size = 0;
  count = 0;
}

abbrev fresh_iterator : Iterator
fresh_iterator = iterator active (Stack.create 1)

abbrev items : ℕ → Slot → Item
items = item_ctor false (λ l. l) (λ n. n)

foreach-eq_example :
    foreach items 60 9 fresh_iterator cache
    ≡ some (
        map
          (items 2)
          (select (wanted 0 60 fresh_iterator) (first_slot ∷ second_slot ∷ third_slot ∷ [])))
unfolding check_expiry search_match
foreach-eq_example =
    foreach-eq items 60 fresh_iterator cache cache-IsIdle refl 9 [] (create-Holds 1) (omega arith)

-- The entry that has run out is passed over.
selected :
    select (wanted 0 60 fresh_iterator) (first_slot ∷ second_slot ∷ third_slot ∷ [])
    ≡ first_slot ∷ third_slot ∷ []
unfolding check_expiry search_match
selected = refl

abbrev some_stack : Stack Item
some_stack = record { cells = some (items 2 first_slot) ∷ []; capacity = 1; size = 1 }

drain-endless_example : drain items 60 1000 (iterator deleted some_stack) cache ≡ none
drain-endless_example =
    drain-endless items 60 cache cache-IsIdle 1000 (iterator deleted some_stack)
      (record { of_deleted = refl; some_item = omega arith })

abbrev file_slot : ℕ → Slot
file_slot inode =
    slot_of (KeyData.file 3 inode) (EntryData.file (97 ∷ 46 ∷ 112 ∷ []) none [] [] (pos 0)) inode

key_string-collides_example :
    key_string (item_of false (λ l. l) (λ n. n) 2 (file_slot 1234))
    ≡ key_string (item_of false (λ l. l) (λ n. n) 2 (file_slot 1235))
key_string-collides_example =
    key_string-collides false (λ l. l) (λ n. n) 2 (file_slot 1234) (file_slot 1235) 3 123 4 5 refl
      refl (omega arith) (omega arith)

-- A search for "a.p".
abbrev named_iterator : Iterator
named_iterator = record fresh_iterator {
  search_hash = some (flip_hash ((97 ∷ 46 ∷ 112 ∷ []) ∷ []));
}

search_match-file_example :
    search_match named_iterator (file_slot 1234)
    ≡ flip_hash ((97 ∷ 46 ∷ 112 ∷ []) ∷ []) (print_ids 3 1234 ++ 0 ∷ [])
search_match-file_example =
    search_match-file named_iterator ((97 ∷ 46 ∷ 112 ∷ []) ∷ []) (file_slot 1234) 3 1234 refl refl
      refl

not_found : search_match named_iterator (file_slot 1234) ≡ false
unfolding search_match print_ids digits
not_found = refl

with_totals-eq_example :
    (r : Iterator) × (with_totals fresh_iterator cache ≡ ok r cache)
    × IsTotal
        (select (search_match fresh_iterator) (first_slot ∷ second_slot ∷ third_slot ∷ []))
        fresh_iterator
        r
with_totals-eq_example = with_totals-eq fresh_iterator cache refl (omega arith) cache-IsIdle
