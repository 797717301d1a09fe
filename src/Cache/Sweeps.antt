-- ===== src/Cache/Sweeps.antt =====
-- `apc_cache_clear` and `apc_cache_expunge` under the lock, as changes of the whole cache.
use pecl_caching_apc.Base.{
  ℕ, zero, suc, ◌/◌, ◌≤◌, ◌≡◌, refl, Bool, true, List, [], ◌∷◌, arith, ◌==◌, ltb, length, get_or,
  tally, Bool-cases, inl, inr, ap, ◌∙◌, add64,
}
use pecl_caching_apc.Cache.Types.{KeyData, Chain, Header, Cache}
use pecl_caching_apc.Cache.Slots.{process_pending_removals}
use pecl_caching_apc.Cache.Find.{flat}
use pecl_caching_apc.Cache.Clean.{
  Memory, remove_all, clear_locked, sweep_all, settle, expunge_locked,
}
use pecl_caching_apc.Cache.Walks.{Walked, Moved-trans, Quiet, Quiet-Walked, has_key}
use pecl_caching_apc.Cache.Accounting.{remove_all-Walked, sweep-Walked, sweep_all-Walked}
use pecl_caching_apc.Cache.Pending.{process_pending_removals-Walked}
use pecl_caching_apc.Cache.Changes.{Changed}

-- The whole table rewritten, with no key where it was not.
Walked-Changed :
    (c : Cache) (hd' : Header) (slots' : List Chain)
    → Walked c.gc_ttl c.header (flat c.slots) hd' (flat slots')
    → length slots' ≡ length c.slots
    → ((j : ℕ) (p : KeyData → ℕ → Bool)
        → tally (has_key p) (get_or slots' j []) ≤ tally (has_key p) (get_or c.slots j []))
    → Changed [] 0 c (record c { header = hd'; slots = slots' })
Walked-Changed c hd' slots' w n fewer = record {
  moved = w;
  width = n;
  num_slots = refl;
  gc_ttl = refl;
  ttl = refl;
  has_lock = refl;
  chains = λ j p. ground (arith, fewer j p);
}

remove_all-length :
    (now : ℕ) (ls : List Chain) (hd : Header) → length (remove_all now ls hd).1 ≡ length ls
unfolding remove_all
remove_all-length now [] hd = refl
remove_all-length now (l ∷ ls) hd = ap suc (remove_all-length now ls _)

-- Every chain is empty afterwards.
pub remove_all-empty :
    (now : ℕ) (ls : List Chain) (hd : Header) (j : ℕ) → get_or (remove_all now ls hd).1 j [] ≡ []
unfolding remove_all
remove_all-empty now [] hd j = refl
remove_all-empty now (l ∷ ls) hd zero = refl
remove_all-empty now (l ∷ ls) hd (suc j) = remove_all-empty now ls _ j

pub remove_all-flat : (now : ℕ) (ls : List Chain) (hd : Header) → flat (remove_all now ls hd).1 ≡ []
unfolding remove_all
remove_all-flat now [] hd = refl
remove_all-flat now (l ∷ ls) hd = remove_all-flat now ls _

sweep_all-length :
    (now ttl t : ℕ) (ls : List Chain) (hd : Header)
    → length (sweep_all now ttl t ls hd).1 ≡ length ls
unfolding sweep_all
sweep_all-length now ttl t [] hd = refl
sweep_all-length now ttl t (l ∷ ls) hd = ap suc (sweep_all-length now ttl t ls _)

sweep_all-fewer :
    (now ttl t : ℕ) (ls : List Chain) (hd : Header) (j : ℕ) (p : KeyData → ℕ → Bool)
    → tally (has_key p) (get_or (sweep_all now ttl t ls hd).1 j [])
      ≤ tally (has_key p) (get_or ls j [])
unfolding sweep_all
sweep_all-fewer now ttl t [] hd j p = omega arith
sweep_all-fewer now ttl t (l ∷ ls) hd zero p =
    omega (arith, (sweep-Walked {gc_ttl = 0} now ttl t l hd).fewer p)
sweep_all-fewer now ttl t (l ∷ ls) hd (suc j) p = sweep_all-fewer now ttl t ls _ j p

-- The table emptied, or swept, with quiet writes to the header before and after.
emptied-Changed :
    (now : ℕ) (c : Cache) (hd : Header) (k : Header → Header)
    → Walked c.gc_ttl c.header (flat c.slots) hd (flat c.slots)
    → ((h : Header) → Quiet h (k h))
    → let r = remove_all now c.slots hd in
      Changed [] 0 c (record c { header = k (r.0); slots = r.1 })
emptied-Changed now c hd k before quiet =
    Walked-Changed c _ _
      (Moved-trans before
        (Moved-trans (remove_all-Walked now c.slots hd) (Quiet-Walked _ (quiet _))))
      (remove_all-length now c.slots hd)
      (λ j p. rw (remove_all-empty now c.slots hd j) (omega arith))

settle-Quiet : (h : Header) → Quiet h (settle h)
settle-Quiet h = record {
  deleted = refl;
  freed = refl;
  entries = refl;
  memory = refl;
  locked = refl;
}

pub clear_locked-Changed : (now : ℕ) (c : Cache) → Changed [] 0 c (clear_locked now c).1
unfolding clear_locked
clear_locked-Changed now c =
    emptied-Changed now c _ settle
      (Quiet-Walked _
        (record { deleted = refl; freed = refl; entries = refl; memory = refl; locked = refl }))
      settle-Quiet

-- The three ways an expunge ends, as the code tests for them.
pub expunge_locked-Changed :
    (memory : Memory) (now t size : ℕ) (c : Cache)
    → Changed [] 0 c (expunge_locked memory now t size c).1
unfolding expunge_locked
expunge_locked-Changed memory now t size c =
    elim (Bool-cases (ltb (memory.shm_size / 2) (memory.avail_mem hd.freed))) [
      | inl enough ↦ rw enough (Walked-Changed c hd c.slots pended refl (λ j p. omega arith))
      | inr short ↦ elim (Bool-cases (c.ttl == 0)) [
        | inl wipe ↦ rw (short, wipe) (emptied-Changed now c begun settle started settle-Quiet)
        | inr by_age ↦ elim (Bool-cases (memory.avail_size swept.0.freed size)) [
          | inl done ↦
              rw (short, by_age, done)
                (Walked-Changed c _ _ (Moved-trans aged (Quiet-Walked _ (settle-Quiet _)))
                  (sweep_all-length now c.ttl t c.slots begun)
                  (sweep_all-fewer now c.ttl t c.slots begun))
          | inr full ↦
              rw (short, by_age, full)
                (Walked-Changed c _ _
                  (Moved-trans aged (
                    Moved-trans (remove_all-Walked now (swept.1) (swept.0))
                      (Quiet-Walked _ (settle-Quiet _))))
                  (remove_all-length now (swept.1) (swept.0)
                    ∙ sweep_all-length now c.ttl t c.slots begun)
                  (λ j p. rw (remove_all-empty now (swept.1) (swept.0) j) (omega arith)))
        ]
      ]
    ]
  where
    hd : Header
    hd = process_pending_removals c.gc_ttl now c.header

    begun : Header
    begun = record hd { busy = true; expunges = add64 hd.expunges 1 }

    swept : Header × List Chain
    swept = sweep_all now c.ttl t c.slots begun

    pended : Walked c.gc_ttl c.header (flat c.slots) hd (flat c.slots)
    pended = process_pending_removals-Walked c.gc_ttl now (flat c.slots) c.header

    started : Walked c.gc_ttl c.header (flat c.slots) begun (flat c.slots)
    started = Moved-trans pended (
        Quiet-Walked _
          (record { deleted = refl; freed = refl; entries = refl; memory = refl; locked = refl }))

    aged : Walked c.gc_ttl c.header (flat c.slots) (swept.0) (flat (swept.1))
    aged = Moved-trans started (sweep_all-Walked now c.ttl t c.slots begun)
