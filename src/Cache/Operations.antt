-- ===== src/Cache/Operations.antt =====
-- Each operation of apc_cache.c under the lock, as a change of the whole cache.
use pecl_caching_apc.Base.{ℕ, ◌%◌, ◌<◌, ◌≡◌, refl, Bool, [], ◌∷◌, some, length, get_or, set}
use pecl_caching_apc.Cache.Types.{Key, KeyId, Entry, PoolRef, Slot, Chain, Header, Cache}
use pecl_caching_apc.Cache.Lock.{on_chain}
use pecl_caching_apc.Cache.Insert.{
  Alloc, Outcome, kept, no_memory, inserted, make_slot, count_inserted, insert_locked,
  user_insert_locked,
}
use pecl_caching_apc.Cache.Walks.{Walked, Moved-trans, Quiet, Quiet-Walked, mem_of}
use pecl_caching_apc.Cache.Pending.{process_pending_removals-Walked}
use pecl_caching_apc.Cache.Insertion.{
  Placed, stays, comes, Adds-Moved, insert_walk-Placed, user_insert_walk-Placed,
}
use pecl_caching_apc.Cache.Changes.{Changed, set-Changed}

abbrev pub added_by : Slot → Outcome → Chain
added_by new kept = []
added_by new no_memory = []
added_by new inserted = new ∷ []

-- A walk of one chain that keeps the accounting.
pub on_chain-Changed :
    {A : Type 0} (i : ℕ) (walk : Chain → Header → A × Header × Chain) (c : Cache)
    → i < length c.slots
    → (let r = walk (get_or c.slots i []) c.header in
        Walked c.gc_ttl c.header (get_or c.slots i []) (r.1) (r.2))
    → Changed [] i c (on_chain i walk c).1
unfolding on_chain
on_chain-Changed i walk c h w = set-Changed [] i c _ _ h w

-- An insert walk with `make_slot`'s slot, and the counting of the new entry.
Placed-Changed :
    (new : Slot) (i : ℕ) (c : Cache) (hd hd' : Header) (l : Chain) (o : Outcome)
    → i < length c.slots
    → Walked c.gc_ttl c.header (get_or c.slots i []) hd (get_or c.slots i [])
    → Placed c.gc_ttl new hd (get_or c.slots i []) o hd' l
    → Changed
        (added_by new o)
        i
        c
        (record c { header = count_inserted (mem_of new) o hd'; slots = set c.slots i l })
unfolding count_inserted
Placed-Changed new i c hd hd' l kept h before (stays w) =
    set-Changed [] i c _ l h (Moved-trans before w)
Placed-Changed new i c hd hd' l no_memory h before p = elim p [ ]
Placed-Changed new i c hd hd' l inserted h before (comes w a) =
    set-Changed (new ∷ []) i c _ l h (Moved-trans before (Adds-Moved w a))

pub insert_locked-Changed :
    (now t : ℕ) (force : Bool) (alloc : Alloc) (pool : PoolRef) (key : Key) (value : Entry)
    (new : Slot) (c : Cache)
    → make_slot alloc key (record value { mem_size = pool.size }) t ≡ some new
    → mem_of new ≡ pool.size
    → key.h % c.num_slots < length c.slots
    → let r = insert_locked now t force alloc pool key value c in
      Changed (added_by new (r.0)) (key.h % c.num_slots) c (r.1)
unfolding insert_locked on_chain
insert_locked-Changed now t force alloc pool key value new c made size h =
    rw (made, ← size)
      (Placed-Changed new (key.h % c.num_slots) c _ _ _ _ h
        (process_pending_removals-Walked c.gc_ttl now _ c.header)
        (insert_walk-Placed c.gc_ttl new now c.ttl t force key _ _))

named-Quiet : (k : KeyId) (hd : Header) → Quiet hd (record hd { lastkey = k })
named-Quiet k hd = record {
  deleted = refl;
  freed = refl;
  entries = refl;
  memory = refl;
  locked = refl;
}

pub user_insert_locked-Changed :
    (now pid t : ℕ) (exclusive : Bool) (alloc : Alloc) (pool : PoolRef) (key : Key) (value : Entry)
    (new : Slot) (c : Cache)
    → make_slot alloc key (record value { mem_size = pool.size }) t ≡ some new
    → mem_of new ≡ pool.size
    → key.h % c.num_slots < length c.slots
    → let r = user_insert_locked now pid t exclusive alloc pool key value c in
      Changed (added_by new (r.0)) (key.h % c.num_slots) c (r.1)
unfolding user_insert_locked on_chain
user_insert_locked-Changed now pid t exclusive alloc pool key value new c made size h =
    rw (made, ← size)
      (Placed-Changed new (key.h % c.num_slots) c _ _ _ _ h
        (Moved-trans (Quiet-Walked _ (named-Quiet _ c.header))
          (process_pending_removals-Walked c.gc_ttl now _ _))
        (user_insert_walk-Placed c.gc_ttl new now c.ttl t exclusive key _ _))
