-- ===== src/Cache/Clean.antt =====
-- apc_cache.c: `apc_cache_clear` and `apc_cache_expunge`.
use pecl_caching_apc.Base.{
  ℕ, ◌+◌, ◌-◌, ◌/◌, Bool, true, false, List, [], ◌∷◌, ◌==◌, ltb, if◌then◌else◌, add64,
}
use pecl_caching_apc.Cache.Types.{EntryData, no_key, Slot, Chain, Header, Cache}
use pecl_caching_apc.Cache.Slots.{process_pending_removals, remove_slot, remove_chain}
use pecl_caching_apc.Cache.Lock.{Cmd, under_lock, under_safe_lock}

-- What the expunge asks of apc_sma.c, as functions of the pools given back so far, and the
-- configured `shm_size`.
pub record Memory : Type 0 where
  pub avail_mem : Chain → ℕ
  pub avail_size : Chain → ℕ → Bool
  pub shm_size : ℕ

-- The loop over the slots that removes every entry: the header and the emptied slots.
unfoldable pub remove_all : (now : ℕ) → List Chain → Header → Header × List Chain
remove_all now [] hd = (hd, [])
remove_all now (l ∷ ls) hd =
    let rest = remove_all now ls (remove_chain now l hd) in (rest.0, [] ∷ rest.1)

-- The code under the lock of `apc_cache_clear`.
unfoldable pub clear_locked : (now : ℕ) → Cache → Unit {0} × Cache
clear_locked now c =
    let hd = c.header in
    let begun = record hd {
      busy = true;
      num_hits = 0;
      num_misses = 0;
      start_time = now;
      expunges = 0;
    } in
    let r = remove_all now c.slots begun in
    let hd' = r.0 in
    (tt, record c { header = record hd' { lastkey = no_key; busy = false }; slots = r.1 })

-- `apc_cache_clear`
unfoldable pub clear : (now : ℕ) → Cmd (Unit {0})
clear now = under_lock (clear_locked now)

-- The test of the sweep. A user entry goes by its own limit or the cache's, any other by its last
-- access; where `t` is below the ttl the difference is negative in C, and no time is below it.
unfoldable pub stale : (ttl t : ℕ) → Slot → Bool
stale ttl t s = elim s.value.entry_data [
  | EntryData.user info val own ↦
      if ltb 0 own
      then ltb (s.creation_time + own) t
      else (if ltb 0 ttl then ltb (s.creation_time + ttl) t else false)
  | EntryData.file f o fs cs h ↦ ltb s.access_time (t - ttl)
]

-- The sweep of one chain, and of all.
unfoldable pub sweep : (now ttl t : ℕ) → Chain → Header → Header × Chain
sweep now ttl t [] hd = (hd, [])
sweep now ttl t (s ∷ c) hd =
    let rest = sweep now ttl t c (if stale ttl t s then remove_slot now s hd else hd) in
    (rest.0, if stale ttl t s then rest.1 else s ∷ rest.1)

unfoldable pub sweep_all : (now ttl t : ℕ) → List Chain → Header → Header × List Chain
sweep_all now ttl t [] hd = (hd, [])
sweep_all now ttl t (l ∷ ls) hd =
    let one = sweep now ttl t l hd in
    let rest = sweep_all now ttl t ls (one.0) in (rest.0, one.1 ∷ rest.1)

-- The end of an expunge: the last key is forgotten, and the cache is no longer busy.
abbrev pub settle : Header → Header
settle hd = record hd { lastkey = no_key; busy = false }

-- The code under the lock of `apc_cache_expunge`; `now` is `time(0)` and `t` is `apc_time()`.
unfoldable pub expunge_locked : Memory → (now t size : ℕ) → Cache → Unit {0} × Cache
expunge_locked memory now t size c =
    let hd = process_pending_removals c.gc_ttl now c.header in
    let begun = record hd { busy = true; expunges = add64 hd.expunges 1 } in
    let wiped = remove_all now c.slots begun in
    let swept = sweep_all now c.ttl t c.slots begun in
    let again = remove_all now (swept.1) (swept.0) in
    if ltb (memory.shm_size / 2) (memory.avail_mem hd.freed)
    then (tt, record c { header = hd })
    else (if c.ttl == 0
        then (tt, record c { header = settle (wiped.0); slots = wiped.1 })
        else (if memory.avail_size (swept.0).freed size
            then (tt, record c { header = settle (swept.0); slots = swept.1 })
            else (tt, record c { header = settle (again.0); slots = again.1 })))

-- `apc_cache_expunge`
unfoldable pub expunge : Memory → (now t size : ℕ) → Cmd (Unit {0})
expunge memory now t size = under_safe_lock (expunge_locked memory now t size)
