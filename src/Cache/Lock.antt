-- ===== src/Cache/Lock.antt =====
-- The locking macros of apc_cache.h, for the builds without atomic read locks (`USE_READ_LOCKS` 0,
-- where `CACHE_RDLOCK` is `CACHE_LOCK`), and the sections that they guard. Other processes run
-- between sections. The lock is not recursive, so a process that takes it twice waits for ever.
use pecl_caching_apc.Base.{ℕ, ◌+◌, ◌-◌, ◌%◌, ◌^◌, true, false, [], ◌==◌, if◌then◌else◌, get_or, set}
use pecl_caching_apc.Cache.Types.{Chain, Header, Cache}

-- `dangling` is an access through a pointer to an entry that has been freed.
pub data Run (A : Type 0) : Type 0 where
  ok : A → Cache → Run A
  deadlock : Run A
  dangling : Run A

abbrev pub Cmd : Type 0 → Type 0
Cmd A = Cache → Run A

abbrev pub pure : {A : Type 0} → A → Cmd A
pure = ok

module _ {A B : Type 0} where
  abbrev pub and_then : Run A → (A → Cmd B) → Run B
  and_then (ok a c) k = k a c
  and_then deadlock k = deadlock
  and_then dangling k = dangling

  infixl 5 ◌>>=◌ ◌>>◌
  abbrev pub ◌>>=◌ : Cmd A → (A → Cmd B) → Cmd B
  m >>= k = λ c. and_then (m c) k

  abbrev pub ◌>>◌ : Cmd A → Cmd B → Cmd B
  m >> n = m >>= λ _. n

-- `LOCK(cache->header->lock)` and `has_lock = 1`
unfoldable pub lock : Cmd (Unit {0})
lock c =
    if c.header.locked
    then deadlock
    else ok tt
        (record c { header = let hd = c.header in record hd { locked = true }; has_lock = 1 })

-- `UNLOCK(cache->header->lock)` and `has_lock = 0`
unfoldable pub unlock : Cmd (Unit {0})
unlock c =
    ok tt (record c { header = let hd = c.header in record hd { locked = false }; has_lock = 0 })

-- `CACHE_SAFE_LOCK`: only the outermost takes the lock.
unfoldable pub safe_lock : Cmd (Unit {0})
safe_lock c =
    let n = (c.has_lock + 1) % 2 ^ 32 in
    if n == 1
    then (if c.header.locked
        then deadlock
        else ok tt
            (record c { header = let hd = c.header in record hd { locked = true }; has_lock = n }))
    else ok tt (record c { has_lock = n })

-- `CACHE_SAFE_UNLOCK`
unfoldable pub safe_unlock : Cmd (Unit {0})
safe_unlock c =
    let n = (c.has_lock + (2 ^ 32 - 1)) % 2 ^ 32 in
    if n == 0
    then ok tt
        (record c { header = let hd = c.header in record hd { locked = false }; has_lock = n })
    else ok tt (record c { has_lock = n })

module _ {A : Type 0} where
  -- Code that runs to its end under the lock.
  abbrev pub act : (Cache → A × Cache) → Cmd A
  act f c = let r = f c in ok (r.0) (r.1)

  -- `CACHE_LOCK`, the code, `CACHE_UNLOCK` on every way out.
  unfoldable pub under_lock : (Cache → A × Cache) → Cmd A
  unfolding lock unlock
  under_lock f = do lock; a ← act f; unlock; pure a

  -- `CACHE_SAFE_LOCK`, the code, `CACHE_SAFE_UNLOCK` on every way out.
  unfoldable pub under_safe_lock : (Cache → A × Cache) → Cmd A
  unfolding safe_lock safe_unlock
  under_safe_lock f = do safe_lock; a ← act f; safe_unlock; pure a

  -- `slot = &cache->slots[i]` and a walk from there; it leaves the new chain and header.
  unfoldable pub on_chain : ℕ → (Chain → Header → A × Header × Chain) → Cache → A × Cache
  on_chain i walk c =
      let r = walk (get_or c.slots i []) c.header in
      (r.0, record c { header = r.1; slots = set c.slots i (r.2) })
