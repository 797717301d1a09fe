-- ===== src/Cache/Failure.antt =====
-- What `apc_cache_user_insert` does when `make_slot` runs out of memory.
use pecl_caching_apc.Base.{
  ℕ, zero, suc, ◌+◌, ◌%◌, ◌^◌, ◌<◌, ◌≡◌, refl, Bool, true, false, not, ◌&&◌, ◌||◌, List, [], ◌∷◌,
  ◌++◌, none, some, arith, tally, tally-append, length, get_or, set, subst, sym, ap,
}
use pecl_caching_apc.Cache.Types.{Key, Entry, PoolRef, Slot, Chain, Header, Cache}
use pecl_caching_apc.Cache.Slots.{user_match, hard_expired, remove_slot, process_pending_removals}
use pecl_caching_apc.Cache.Insert.{
  Alloc, no_memory, key_text, make_slot, user_insert_walk, user_insert_locked, user_insert,
  user_insert_section, is_last_key, is_inserted, count_inserted,
}
use pecl_caching_apc.Cache.Lock.{on_chain}
use pecl_caching_apc.Cache.Find.{flat, has_address}
use pecl_caching_apc.Cache.Walks.{owned, remove_slot-Walked}
use pecl_caching_apc.Cache.Pending.{process_pending_removals-Walked}
use pecl_caching_apc.Cache.Changes.{Returns, returns, free_section-ok, held}
use pecl_caching_apc.Cache.Effects.{IsIdle, index-lt}

-- The walk of an insert without a slot to place, at a chain that has the key behind `before`.
module _ (now ttl t : ℕ) (exclusive : Bool) (key : Key) (s : Slot) (behind : Chain) (a : ℕ)
    (match : user_match key.h (key_text key) s ≡ true)
    (give : (exclusive && not (hard_expired t s)) ≡ false) where
  walk-no_memory :
      (before : Chain) (hd : Header)
      → tally (user_match key.h (key_text key)) before ≡ 0
      → (user_insert_walk now ttl t exclusive key none (before ++ s ∷ behind) hd).0 ≡ no_memory
  unfolding user_insert_walk
  walk-no_memory [] hd none_before = rw (match, give) refl
  walk-no_memory (x ∷ before) hd none_before =
      ground (arith, walk-no_memory before hd, walk-no_memory before (remove_slot now x hd))

  walk-loses :
      (before : Chain) (hd : Header)
      → tally (user_match key.h (key_text key)) before ≡ 0
      → let r = user_insert_walk now ttl t exclusive key none (before ++ s ∷ behind) hd in
        owned a (r.1) (r.2) + tally (has_address a) behind ≡ owned a hd (before ++ s ∷ behind)
  unfolding user_insert_walk
  walk-loses [] hd none_before =
      rw (match, give) (omega (arith, (remove_slot-Walked {gc_ttl = 0} now s behind hd).total a))
  walk-loses (x ∷ before) hd none_before = ground (
    arith,
    walk-loses before hd,
    walk-loses before (remove_slot now x hd),
    (remove_slot-Walked {gc_ttl = 0} now x (before ++ s ∷ behind) hd).total a,
  )

-- A write into one chain, counted over the table.
tally-set :
    (p : Slot → Bool) (slots : List Chain) (i : ℕ) (l : Chain)
    → i < length slots
    → tally p (flat (set slots i l)) + tally p (get_or slots i [])
      ≡ tally p (flat slots) + tally p l
tally-set p [] i l h = absurd (omega arith)
tally-set p (k ∷ slots) zero l h =
    omega (arith, tally-append p k (flat slots), tally-append p l (flat slots))
tally-set p (k ∷ slots) (suc i) l h = omega (
  arith,
  tally-append p k (flat slots),
  tally-append p k (flat (set slots i l)),
  tally-set p slots i l,
)

make_slot-none :
    (alloc : Alloc) (key : Key) (value : Entry) (t : ℕ)
    → alloc.slot ≡ false
    → make_slot alloc key value t ≡ none
unfolding make_slot
make_slot-none alloc key value t out = rw out refl

module _ (now pid t : ℕ) (slam exclusive : Bool) (alloc : Alloc) (pool : PoolRef) (key : Key)
    (value : Entry) (c : Cache) (before behind : Chain) (s : Slot) where
  -- The locked part of such an insert: what it reports, and what becomes of the entries.
  locked-loses :
      (a : ℕ)
      → IsIdle c
      → alloc.slot ≡ false
      → get_or c.slots (key.h % c.num_slots) [] ≡ before ++ s ∷ behind
      → tally (user_match key.h (key_text key)) before ≡ 0
      → user_match key.h (key_text key) s ≡ true
      → (exclusive && not (hard_expired t s)) ≡ false
      → let r = user_insert_locked now pid t exclusive alloc pool key value (held c) in
        (r.0 ≡ no_memory)
        × (owned a r.1.header (flat r.1.slots) + tally (has_address a) behind
            ≡ owned a c.header (flat c.slots))
  unfolding user_insert_locked on_chain count_inserted
  locked-loses a v out chain none_before match give =
      let named =
        let hd = c.header in
        record hd {
          locked = true;
          lastkey = record {
            h = key.h % 2 ^ 32;
            keylen = length (key_text key);
            mtime = t;
            pid = pid;
          };
        } in
      let hd = process_pending_removals c.gc_ttl now named in
      let l = before ++ s ∷ behind in
      let i = key.h % c.num_slots in
      let r = user_insert_walk now c.ttl t exclusive key none l hd in
      rw
        (
          make_slot-none alloc key (record value { mem_size = pool.size }) t out,
          chain,
          walk-no_memory now c.ttl t exclusive key s behind a match give before hd none_before,
        )
        (
          refl,
          omega (
            arith,
            walk-loses now c.ttl t exclusive key s behind a match give before hd none_before,
            (process_pending_removals-Walked c.gc_ttl now [] named).total a,
            tally-set (has_address a) c.slots i (r.2) (index-lt key.h v),
            ap (tally (has_address a)) chain,
          ),
        )

  -- A replacing insert into the user cache whose `make_slot` gets no memory writes NULL over the rest
  -- of the chain: on an idle cache that is not busy, for a key that is not the last one of another
  -- process and has a slot that gives way, the insert ends and reports failure, and what stood
  -- behind that slot is lost. The slots of each entry, in the table, on the pending list or freed,
  -- are fewer than before by those that it had behind there.
  pub user_insert-loses :
      IsIdle c
      → (c.header.busy || is_last_key slam pid t key c.header.lastkey) ≡ false
      → alloc.slot ≡ false
      → get_or c.slots (key.h % c.num_slots) [] ≡ before ++ s ∷ behind
      → tally (user_match key.h (key_text key)) before ≡ 0
      → user_match key.h (key_text key) s ≡ true
      → (exclusive && not (hard_expired t s)) ≡ false
      → Returns
          (λ r c'.
            (r ≡ false)
            × ((a : ℕ)
                → owned a c'.header (flat c'.slots) + tally (has_address a) behind
                  ≡ owned a c.header (flat c.slots)))
          (user_insert now pid t slam exclusive alloc pool key (some value) c)
  unfolding user_insert
  user_insert-loses v free out chain none_before match give =
      subst (Returns _)
        (sym (
          free_section-ok (user_insert_section now pid t exclusive alloc pool key value) false c
            free v.unlocked))
        (returns (
          ap is_inserted (locked-loses 0 v out chain none_before match give).0,
          λ a. (locked-loses a v out chain none_before match give).1,
        ))
