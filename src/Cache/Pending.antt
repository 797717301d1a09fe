-- ===== src/Cache/Pending.antt =====
-- `process_pending_removals` of apc_cache.c against the accounting of `Walks`.
use pecl_caching_apc.Base.{ℕ, ◌+◌, ◌≤◌, ◌≡◌, refl, [], ◌∷◌, arith, tally, ◌∙◌}
use pecl_caching_apc.Cache.Types.{Chain, Header}
use pecl_caching_apc.Cache.Slots.{free_slot, pending, process_pending_removals}
use pecl_caching_apc.Cache.Find.{has_address}
use pecl_caching_apc.Cache.Walks.{Walked, in_use}

-- One round of `process_pending_removals`, with the kept part of the pending list beside it.
pub pending-total :
    (gc_ttl now a : ℕ) (l : Chain) (hd : Header)
    → let r = pending gc_ttl now l hd in
      tally (has_address a) (r.1) + tally (has_address a) (r.0).freed
      ≡ tally (has_address a) l + tally (has_address a) hd.freed
unfolding pending free_slot
pending-total gc_ttl now a [] hd = refl
pending-total gc_ttl now a (s ∷ l) hd =
    ground (arith, pending-total gc_ttl now a l hd, pending-total gc_ttl now a l (free_slot s hd))

pub pending-pins :
    (gc_ttl now a : ℕ) (l : Chain) (hd : Header)
    → gc_ttl ≡ 0
    → tally (in_use a) l ≤ tally (in_use a) (pending gc_ttl now l hd).1
unfolding pending
pending-pins gc_ttl now a [] hd z = omega arith
pending-pins gc_ttl now a (s ∷ l) hd z =
    ground (arith, pending-pins gc_ttl now a l hd z, pending-pins gc_ttl now a l (free_slot s hd) z)

-- The loop leaves the header alone but for the log of freed pools.
pub pending-rest :
    (gc_ttl now : ℕ) (l : Chain) (hd : Header)
    → let r = pending gc_ttl now l hd in
      ((r.0).num_entries ≡ hd.num_entries)
      × ((r.0).mem_size ≡ hd.mem_size)
      × ((r.0).locked ≡ hd.locked)
unfolding pending free_slot
pending-rest gc_ttl now [] hd = (refl, refl, refl)
pending-rest gc_ttl now (s ∷ l) hd =
    ground (arith, pending-rest gc_ttl now l hd, pending-rest gc_ttl now l (free_slot s hd))

pub process_pending_removals-Walked :
    (gc_ttl now : ℕ) (c : Chain) (hd : Header)
    → Walked gc_ttl hd c (process_pending_removals gc_ttl now hd) c
unfolding process_pending_removals
process_pending_removals-Walked gc_ttl now c hd =
    let r = pending-rest gc_ttl now hd.deleted_list hd in
    record {
      total = λ a. omega (arith, pending-total gc_ttl now a hd.deleted_list hd);
      entries = λ n h. r.0 ∙ h;
      memory = λ m h. r.1 ∙ h;
      pinned = λ e a. omega (arith, pending-pins gc_ttl now a hd.deleted_list hd e);
      fewer = λ p. omega arith;
      locked = r.2;
    }
