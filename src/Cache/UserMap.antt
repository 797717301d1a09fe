-- ===== src/Cache/UserMap.antt =====
-- The operations of the user cache against the map that they keep.
use pecl_caching_apc.Base.{
  ℕ, ◌+◌, ◌%◌, ◌≤◌, ◌≡◌, refl, Bool, true, false, not, ◌&&◌, ◌||◌, List, [], Option, none, some,
  arith, if◌then◌else◌, get_or, ap, subst, sym, ◌∙◌, Bool-cases, inl, inr, ◌⊎◌, ==_refl,
  get_or-set_self,
}
use pecl_caching_apc.Cache.Types.{Key, Entry, PoolRef, Slot, Cache}
use pecl_caching_apc.Cache.Slots.{user_match, hard_expired, user_ttl}
use pecl_caching_apc.Cache.Lock.{ok, pure, and_then, on_chain}
use pecl_caching_apc.Cache.Insert.{
  Alloc, Outcome, kept, no_memory, inserted, make_slot, is_inserted, is_last_key,
  user_insert_locked, user_insert_section, user_insert,
}
use pecl_caching_apc.Cache.Create.{user_key}
use pecl_caching_apc.Cache.Find.{user_find, user_exists}
use pecl_caching_apc.Cache.Changes.{
  Returns, returns, Returns-mono, Returns-ok, ok-injective, free_section-ok, held,
}
use pecl_caching_apc.Cache.Histories.{user_inserts, exec, Succeeds}
use pecl_caching_apc.Cache.Effects.{IsIdle, index-lt, make_slot-some}
use pecl_caching_apc.Cache.Invariant.{IsValid, exec-IsValid}
use pecl_caching_apc.Cache.Lookup.{
  first, live, is_some, value_of, referenced_of, touched_of-eq, user_exists_walk-eq,
  user_find_walk-eq, user_insert_walk-eq, user_insert_walk-first, mem_eq_refl,
}

-- What was stored comes back: the entry at its address, with its value and limit.
abbrev pub Finds : Entry → Option Entry → Type 0
Finds value none = ⊥
Finds value (some e) = (e.address ≡ value.address) × (e.entry_data ≡ value.entry_data)

matches_itself :
    (s : Slot) (h : ℕ) (strkey : List ℕ) (t : ℕ)
    → s.key ≡ user_key (λ _. h) strkey t
    → user_match h strkey s ≡ true
unfolding user_match
matches_itself s h strkey t k =
    ground (
      arith,
      ap (λ (x : Key). x.key_data) k,
      ap (λ (x : Key). x.h) k,
      ==_refl h,
      mem_eq_refl strkey,
    )

is_inserted-if : (b : Bool) → is_inserted (if b then kept else inserted) ≡ not b
is_inserted-if true = refl
is_inserted-if false = refl

is_inserted-true : (o : Outcome) → is_inserted o ≡ true → o ≡ inserted
is_inserted-true kept h = cc
is_inserted-true no_memory h = cc
is_inserted-true inserted h = refl

-- A slot made at `t`, looked up before its own limit.
Finds-new :
    (value : Entry) (size t t' : ℕ) (new : Slot)
    → new.value ≡ record value { mem_size = size }
    → new.creation_time ≡ t
    → (user_ttl value ≡ 0) ⊎ (t' ≤ t + user_ttl value)
    → Finds value (referenced_of (live t' (some new)))
unfolding hard_expired
Finds-new value size t t' new e born fresh =
    let same : new.value.entry_data ≡ value.entry_data = ap (λ (x : Entry). x.entry_data) e in
    let own : user_ttl new.value ≡ user_ttl value = ap user_ttl e in
    let early : hard_expired t' new ≡ false = ground arith in
    rw early (ap (λ (x : Entry). x.address) e, same)

module _ (nhash : List ℕ → ℕ) where
  -- The slot of a user key: the first in its chain that matches.
  abbrev pub user_slot : List ℕ → Cache → Option Slot
  user_slot strkey c =
      first (user_match (nhash strkey) strkey) (get_or c.slots (nhash strkey % c.num_slots) [])

  -- On an idle cache that is not busy, `apc_cache_user_exists` ends and returns the entry of the
  -- first slot of the key, unless that is past its hard limit or there is none, and leaves that slot
  -- as it is.
  pub user_exists-eq :
      (strkey : List ℕ) (t : ℕ) (c : Cache)
      → IsIdle c
      → c.header.busy ≡ false
      → Returns
          (λ r c'.
            (r ≡ value_of (live t (user_slot strkey c)))
            × (user_slot strkey c' ≡ user_slot strkey c))
          (user_exists nhash strkey t c)
  unfolding user_exists on_chain
  user_exists-eq strkey t c v free =
      subst (Returns _) (sym (free_section-ok _ none c free v.unlocked)) (
        returns (
          user_exists_walk-eq t (nhash strkey) strkey _,
          ap (first (user_match (nhash strkey) strkey)) (
              get_or-set_self c.slots (nhash strkey % c.num_slots) _ []
                (index-lt (nhash strkey) v)),
        ))

  -- On an idle cache that is not busy, `apc_cache_user_find` ends and returns the entry of the first
  -- slot of the key with one more reference, unless that slot is past its hard limit or there is
  -- none.
  pub user_find-eq :
      (now : ℕ) (strkey : List ℕ) (t : ℕ) (c : Cache)
      → IsIdle c
      → c.header.busy ≡ false
      → Returns
          (λ r _. r ≡ referenced_of (live t (user_slot strkey c)))
          (user_find nhash now strkey t c)
  unfolding user_find on_chain
  user_find-eq now strkey t c v free =
      subst (Returns _) (sym (free_section-ok _ none c free v.unlocked)) (
        returns (
          user_find_walk-eq now t (nhash strkey) strkey _ _
          ∙ touched_of-eq t (live t (user_slot strkey c))))

  -- The walk of an insert under the lock, from the chain of the key.
  insert_chain :
      (now pid t : ℕ) (exclusive : Bool) (alloc : Alloc) (pool : PoolRef) (strkey : List ℕ)
      (value : Entry) (new : Slot) (c : Cache)
      → make_slot alloc (user_key nhash strkey t) (record value { mem_size = pool.size }) t
        ≡ some new
      → IsIdle c
      → new.key ≡ user_key nhash strkey t
      → let r =
          user_insert_locked now pid t exclusive alloc pool
            (user_key nhash strkey t)
            value
            (held c) in
        (r.0 ≡ (if exclusive && is_some (live t (user_slot strkey c)) then kept else inserted))
        × (r.0 ≡ inserted → user_slot strkey (r.1) ≡ some new)
  unfolding user_insert_locked on_chain
  insert_chain now pid t exclusive alloc pool strkey value new c made v k = rw made (
    user_insert_walk-eq now c.ttl t exclusive (user_key nhash strkey t) (some new) _ _,
    λ done.
        ap (first (user_match (nhash strkey) strkey))
          (get_or-set_self c.slots (nhash strkey % c.num_slots) _ [] (index-lt (nhash strkey) v))
        ∙ user_insert_walk-first now c.ttl t exclusive (user_key nhash strkey t) new _ _
            (matches_itself new (nhash strkey) strkey t k) done,
  )

  module _ (now pid t : ℕ) (slam exclusive : Bool) (alloc : Alloc) (pool : PoolRef)
      (strkey : List ℕ) (value : Entry) (c : Cache) (s : Succeeds alloc) where
    -- On an idle cache that is not busy, where the key is not the last one of another process and
    -- the slot can be allocated, `apc_cache_user_insert` ends, and succeeds unless it is exclusive
    -- and the key has a slot that is not past its hard limit.
    pub user_insert-eq :
        IsIdle c
        → (c.header.busy || is_last_key slam pid t (user_key nhash strkey t) c.header.lastkey)
          ≡ false
        → Returns
            (λ r _. r ≡ not (exclusive && is_some (live t (user_slot strkey c))))
            (user_insert now pid t slam exclusive alloc pool
              (user_key nhash strkey t)
              (some value)
              c)
    unfolding user_insert
    user_insert-eq v free =
        let (new, made, e, k, born) =
          make_slot-some alloc (user_key nhash strkey t) (record value { mem_size = pool.size }) t
            s in
        let (out, first_is) =
          insert_chain now pid t exclusive alloc pool strkey value new c made v k in
        subst (Returns _)
          (sym (
            free_section-ok
              (user_insert_section now pid t exclusive alloc pool (user_key nhash strkey t) value)
              false c free v.unlocked))
          (returns (ap is_inserted out ∙ is_inserted-if _))

    -- What a successful insert into a valid cache stores is what a lookup of the same key returns
    -- right after it, as long as the entry's own limit has not passed at the time of the lookup and
    -- the cache is not busy: the entry at the same address, with the same data.
    pub user_insert-user_find :
        (now' t' : ℕ) (c₁ : Cache)
        → IsValid c
        → user_insert now pid t slam exclusive alloc pool (user_key nhash strkey t) (some value) c
          ≡ ok true c₁
        → c₁.header.busy ≡ false
        → (user_ttl value ≡ 0) ⊎ (t' ≤ t + user_ttl value)
        → Returns (λ r _. Finds value r) (user_find nhash now' strkey t' c₁)
    unfolding user_insert exec
    user_insert-user_find now' t' c₁ v done free fresh =
        Returns-mono (user_find-eq now' strkey t' c₁ after.idle free)
          λ r _ e. subst (Finds value) (sym e) found
      where
        after : IsValid c₁
        after =
            Returns-ok tt c₁
              (exec-IsValid nhash
                (user_inserts now pid t slam exclusive alloc pool (user_key nhash strkey t) value) c
                (s, tt) v)
              (ap (λ r. and_then r (λ _. pure tt)) done)

        found : Finds value (referenced_of (live t' (user_slot strkey c₁)))
        found =
            let (new, made, e, k, born) =
              make_slot-some alloc (user_key nhash strkey t) (record value { mem_size = pool.size })
                t s in
            let (out, first_is) =
              insert_chain now pid t exclusive alloc pool strkey value new c made v.idle k in
            elim (Bool-cases (
              c.header.busy || is_last_key slam pid t (user_key nhash strkey t) c.header.lastkey)) [
                | inl refused ↦ cc
                | inr through ↦
                    let ended =
                      sym (
                        free_section-ok
                          (user_insert_section now pid t exclusive alloc pool
                            (user_key nhash strkey t) value)
                          false c through v.idle.unlocked)
                      ∙ done in
                    let (r, same) = ok-injective ended in
                    subst
                      (λ (d : Cache). Finds value (referenced_of (live t' (user_slot strkey d))))
                      same
                      (subst (λ o. Finds value (referenced_of (live t' o)))
                        (sym (first_is (is_inserted-true _ r)))
                        (Finds-new value pool.size t t' new e born fresh))
              ]
