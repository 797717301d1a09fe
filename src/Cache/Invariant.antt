-- ===== src/Cache/Invariant.antt =====
-- The invariant of the cache between calls, the accounting of entries, and the safety of those in
-- use, over any history of calls.
use pecl_caching_apc.Base.{
  ℕ, ◌+◌, ◌%◌, ◌≤◌, ◌≡◌, refl, pos, List, [], ◌∷◌, arith, length, get_or, tally, weigh, word_mod,
  Bool-cases, inl, inr, ◌==◌, ap, ◌∙◌, sym, subst, All,
}
use native.Mathlib.Nat.{le_refl, le_trans}
use pecl_caching_apc.Cache.Types.{Cache}
use pecl_caching_apc.Cache.Find.{flat}
use pecl_caching_apc.Cache.Walks.{has_key, mem_of, owned, pins}
use pecl_caching_apc.Cache.Changes.{Returns, returns, Returns-mono, Returns-bind}
use pecl_caching_apc.Cache.Histories.{Call, exec, exec_all, misfiled, IsLegal, brings}
use pecl_caching_apc.Cache.Effects.{IsIdle, Effect, effect}
use pecl_caching_apc.Cache.Calls.{exec-Effect}

-- Between two calls: the lock is free, the counters of the header are those of the table (the
-- memory modulo the word), and every slot stands in the chain of its key's hash.
pub record IsValid (c : Cache) : Type 0 where
  pub idle : IsIdle c
  pub entries : c.header.num_entries ≡ pos (length (flat c.slots))
  pub memory : c.header.mem_size ≡ weigh mem_of (flat c.slots) % word_mod
  pub filed : (j : ℕ) → tally (has_key (misfiled j c.num_slots)) (get_or c.slots j []) ≡ 0

Effect-IsValid : {call : Call} {c c' : Cache} → IsValid c → Effect call c c' → IsValid c'
Effect-IsValid {c} {c'} v (effect added i ch few filed) = record {
  idle = record {
    unlocked = ch.moved.locked ∙ v.idle.unlocked;
    has_lock = ch.has_lock ∙ v.idle.has_lock;
    width = ch.width ∙ v.idle.width ∙ sym ch.num_slots;
    some_slots = omega (arith, ch.num_slots, v.idle.some_slots);
  };
  entries = ch.moved.entries 0 (v.entries ∙ ap pos (omega arith)) ∙ ap pos (omega arith);
  memory =
      ch.moved.memory 0 (v.memory ∙ ap (λ (x : ℕ). x % word_mod) (omega arith))
      ∙ ap (λ (x : ℕ). x % word_mod) (omega arith);
  filed = λ j. rw ch.num_slots (elim (Bool-cases (i == j)) [
    | inl same ↦
        let e : i ≡ j = ground arith in
        let here = subst (λ k. tally (has_key (misfiled k c.num_slots)) added ≡ 0) e filed in
        ground (arith, ch.chains j (misfiled j c.num_slots), v.filed j)
    | inr other ↦ ground (arith, ch.chains j (misfiled j c.num_slots), v.filed j)
  ]);
}

-- The state after some calls, compared with the state before: what is in use stays.
pub record Later (c c' : Cache) : Type 0 where
  pub valid : IsValid c'
  pub gc_ttl : c'.gc_ttl ≡ c.gc_ttl
  pub pinned :
      c.gc_ttl ≡ 0 → (a : ℕ) → pins a c.header (flat c.slots) ≤ pins a c'.header (flat c'.slots)

module _ (nhash : List ℕ → ℕ) where
  -- Every call with legal arguments, made on a valid cache, runs to its end without waiting for
  -- its own lock, and leaves a valid cache: the lock free, `num_entries` and `mem_size` equal to
  -- the number and total size of the entries in the table, and every slot in its chain.
  pub exec-IsValid :
      (call : Call) (c : Cache)
      → IsLegal call
      → IsValid c
      → Returns (λ _. IsValid) (exec nhash call c)
  exec-IsValid call c legal v =
      Returns-mono (exec-Effect nhash call c v.idle legal) λ _ c' e. Effect-IsValid v e

  -- A call other than a release, made on a valid cache with legal arguments, so that the slot of an
  -- insert can be allocated, neither loses an entry nor frees one twice: in how many slots of the table, of the pending list and of the freed pools an entry stands does
  -- not fall, and rises at most by the one that the call brings in.
  pub exec-owned :
      (call : Call) (c : Cache) (a : ℕ)
      → IsLegal call
      → IsValid c
      → Returns
          (λ _ c'.
            (owned a c.header (flat c.slots) ≤ owned a c'.header (flat c'.slots))
            × (owned a c'.header (flat c'.slots) ≤ owned a c.header (flat c.slots) + brings a call))
          (exec nhash call c)
  exec-owned call c a legal v =
      Returns-mono (exec-Effect nhash call c v.idle legal) λ _ c' e. owned_of e
    where
      owned_of :
          {c' : Cache}
          → Effect call c c'
          → (owned a c.header (flat c.slots) ≤ owned a c'.header (flat c'.slots))
            × (owned a c'.header (flat c'.slots) ≤ owned a c.header (flat c.slots) + brings a call)
      owned_of (effect added i ch few filed) = omega (arith, ch.moved.total a, few a)

  pub exec-Later :
      (call : Call) (c : Cache)
      → IsLegal call
      → IsValid c
      → Returns (λ _. Later c) (exec nhash call c)
  exec-Later call c legal v =
      Returns-mono (exec-Effect nhash call c v.idle legal) λ _ c' e. later_of e
    where
      later_of : {c' : Cache} → Effect call c c' → Later c c'
      later_of (effect added i ch few filed) = record {
        valid = Effect-IsValid v (effect added i ch few filed);
        gc_ttl = ch.gc_ttl;
        pinned = ch.moved.pinned;
      }

  pub exec_all-Later :
      (calls : List Call) (c : Cache)
      → All IsLegal calls
      → IsValid c
      → Returns (λ _. Later c) (exec_all nhash calls c)
  unfolding exec_all
  exec_all-Later [] c legal v =
      returns (record { valid = v; gc_ttl = refl; pinned = λ e a. le_refl _ })
  exec_all-Later (call ∷ calls) c (legal, rest) v =
      Returns-bind (exec-Later call c legal v) λ _ c₁ l.
        Returns-mono (exec_all-Later calls c₁ rest l.valid) λ _ c₂ m. record {
          valid = m.valid;
          gc_ttl = m.gc_ttl ∙ l.gc_ttl;
          pinned = λ e a. le_trans (l.pinned e a) (m.pinned (l.gc_ttl ∙ e) a);
        }

  -- Where `gc_ttl` is 0, any number of legal calls other than releases on a valid cache end with
  -- the invariant, and no entry that is in use is freed: it stands in use in as many slots as
  -- before at least.
  pub exec_all-pinned :
      (calls : List Call) (c : Cache)
      → All IsLegal calls
      → IsValid c
      → c.gc_ttl ≡ 0
      → Returns
          (λ _ c'.
            IsValid c'
            × ((a : ℕ) → pins a c.header (flat c.slots) ≤ pins a c'.header (flat c'.slots)))
          (exec_all nhash calls c)
  exec_all-pinned calls c legal v forever =
      Returns-mono (exec_all-Later calls c legal v) λ _ c' l. (l.valid, l.pinned forever)
