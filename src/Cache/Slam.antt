-- ===== src/Cache/Slam.antt =====
-- The slam defense of the user cache: what `apc_cache_is_last_key` makes of the key that
-- `apc_cache_user_insert` has noted.
use pecl_caching_apc.Base.{
  ℕ, ◌%◌, ◌^◌, ◌≡◌, ◌≢◌, refl, Bool, true, [], ◌∷◌, ltb, arith, length, ap, ◌∙◌, ==_refl, Option,
}
use pecl_caching_apc.Cache.Types.{Key, KeyId, Entry, PoolRef, Slot, Chain, Header, Cache}
use pecl_caching_apc.Cache.Slots.{remove_slot, free_slot, pending, process_pending_removals}
use pecl_caching_apc.Cache.Lock.{on_chain}
use pecl_caching_apc.Cache.Insert.{
  Alloc, Outcome, kept, no_memory, inserted, key_text, count_inserted, is_last_key,
  user_insert_walk, user_insert_locked,
}

remove_slot-lastkey :
    (now : ℕ) (s : Slot) (hd : Header) → (remove_slot now s hd).lastkey ≡ hd.lastkey
unfolding remove_slot free_slot
remove_slot-lastkey now s hd = ground (arith)

pending-lastkey :
    (gc_ttl now : ℕ) (l : Chain) (hd : Header) → (pending gc_ttl now l hd).0.lastkey ≡ hd.lastkey
unfolding pending free_slot
pending-lastkey gc_ttl now [] hd = refl
pending-lastkey gc_ttl now (s ∷ l) hd =
    ground (arith, pending-lastkey gc_ttl now l hd, pending-lastkey gc_ttl now l (free_slot s hd))

user_insert_walk-lastkey :
    (now ttl t : ℕ) (exclusive : Bool) (key : Key) (new : Option Slot) (c : Chain) (hd : Header)
    → (user_insert_walk now ttl t exclusive key new c hd).1.lastkey ≡ hd.lastkey
unfolding user_insert_walk
user_insert_walk-lastkey now ttl t exclusive key new [] hd = refl
user_insert_walk-lastkey now ttl t exclusive key new (s ∷ c) hd = ground (
  arith,
  user_insert_walk-lastkey now ttl t exclusive key new c hd,
  user_insert_walk-lastkey now ttl t exclusive key new c (remove_slot now s hd),
  remove_slot-lastkey now s hd,
)

count_inserted-lastkey :
    (size : ℕ) (o : Outcome) (hd : Header) → (count_inserted size o hd).lastkey ≡ hd.lastkey
unfolding count_inserted
count_inserted-lastkey size kept hd = refl
count_inserted-lastkey size no_memory hd = refl
count_inserted-lastkey size inserted hd = refl

abbrev noted : (pid t : ℕ) → Key → KeyId
noted pid t key = record {
  h = key.h % 2 ^ 32;
  keylen = length (key_text key);
  mtime = t;
  pid = pid;
}

user_insert_locked-lastkey :
    (now pid t : ℕ) (exclusive : Bool) (alloc : Alloc) (pool : PoolRef) (key : Key) (value : Entry)
    (c : Cache)
    → (user_insert_locked now pid t exclusive alloc pool key value c).1.header.lastkey
      ≡ noted pid t key
unfolding user_insert_locked on_chain process_pending_removals
user_insert_locked-lastkey now pid t exclusive alloc pool key value c =
    count_inserted-lastkey pool.size _ _
    ∙ user_insert_walk-lastkey now c.ttl t exclusive key _ _ _
    ∙ pending-lastkey c.gc_ttl now c.header.deleted_list _

noted-is_last_key :
    (pid pid' t : ℕ) (key : Key)
    → pid' ≢ pid
    → is_last_key true pid' t key (noted pid t key) ≡ ltb key.h (2 ^ 32)
unfolding is_last_key
noted-is_last_key pid pid' t key other = ground (arith, ==_refl t, ==_refl (length (key_text key)))

-- After an insert of a key, successful or not, an insert of the same key in the same second from
-- another process is taken for a slam, with the defense on, exactly if the hash of the key is
-- below 2^32. Larger hashes, which the 64-bit build has, never are.
pub user_insert_locked-is_last_key :
    (now pid pid' t : ℕ) (exclusive : Bool) (alloc : Alloc) (pool : PoolRef) (key : Key)
    (value : Entry) (c : Cache)
    → pid' ≢ pid
    → is_last_key true pid' t key
        (user_insert_locked now pid t exclusive alloc pool key value c).1.header.lastkey
      ≡ ltb key.h (2 ^ 32)
user_insert_locked-is_last_key now pid pid' t exclusive alloc pool key value c other =
    ap (is_last_key true pid' t key)
      (user_insert_locked-lastkey now pid t exclusive alloc pool key value c)
    ∙ noted-is_last_key pid pid' t key other
