-- ===== src/Cache/Effects.antt =====
-- The two inserts against the changes of `Changes`, and what a call may change in all.
use pecl_caching_apc.Base.{
  ℕ, ◌+◌, ◌%◌, ◌≤◌, ◌<◌, ◌≡◌, refl, Bool, false, ◌||◌, List, [], some, arith, ◌==◌, if◌then◌else◌,
  length, tally, Bool-cases, inl, inr, subst, sym, ap, ==_refl,
}
use native.Mathlib.Nat.{mod-lt}
use Prim.Native.Nat.{zero-le}
use pecl_caching_apc.Cache.Types.{KeyData, Key, Entry, PoolRef, Slot, Chain, Cache}
use pecl_caching_apc.Cache.Lock.{Run, pure, and_then, under_lock}
use pecl_caching_apc.Cache.Insert.{
  Alloc, Outcome, kept, no_memory, inserted, make_slot, insert_locked, insert_value, insert, to_int,
  is_inserted, user_insert_locked, user_insert, is_last_key,
}
use pecl_caching_apc.Cache.Find.{flat, has_address}
use pecl_caching_apc.Cache.Walks.{Walked-refl, has_key}
use pecl_caching_apc.Cache.Changes.{
  Returns, returns, Returns-mono, Changed, held, under_lock-Changed,
}
use pecl_caching_apc.Cache.Operations.{added_by, insert_locked-Changed, user_insert_locked-Changed}
use pecl_caching_apc.Cache.Histories.{Call, misfiled, IsKey, Succeeds, brings}

-- The state between two calls: the lock is free, and the table has its chains.
pub record IsIdle (c : Cache) : Type 0 where
  pub unlocked : c.header.locked ≡ false
  pub has_lock : c.has_lock ≡ 0
  pub width : length c.slots ≡ c.num_slots
  pub some_slots : 0 < c.num_slots

-- A change that brings in at most the call's entry, in the chain of its key.
pub data Effect (call : Call) (c c' : Cache) : Type 0 where
  effect :
      (added : Chain) (i : ℕ)
      → Changed added i c c'
      → ((a : ℕ) → tally (has_address a) added ≤ brings a call)
      → tally (has_key (misfiled i c.num_slots)) added ≡ 0
      → Effect call c c'

pub index-lt : {c : Cache} (h : ℕ) → IsIdle c → h % c.num_slots < length c.slots
index-lt h v = rw v.width (mod-lt h v.some_slots)

pub bind-Returns :
    {A : Type 0} {P Q : Cache → Type 0} {r : Run A}
    → Returns (λ _. P) r
    → ((c : Cache) → P c → Q c)
    → Returns (λ _. Q) (and_then r (λ _. pure tt))
bind-Returns (returns p) weaken = returns (weaken _ p)

module _ {call : Call} {c : Cache} where
  -- A call that brings nothing in.
  pub quiet-Effect : {c' : Cache} {i : ℕ} → Changed [] i c c' → Effect call c c'
  quiet-Effect {i} ch = effect [] i ch (λ a. zero-le) refl

  pub unchanged : IsIdle c → Effect call c c
  unchanged v = quiet-Effect {i = 0} (record {
    moved = Walked-refl c.header (flat c.slots);
    width = refl;
    num_slots = refl;
    gc_ttl = refl;
    ttl = refl;
    has_lock = refl;
    chains = λ j p. ground arith;
  })

  pub section-Effect :
      {A : Type 0} (f : Cache → A × Cache) (i : ℕ)
      → IsIdle c
      → Changed [] i (held c) (f (held c)).1
      → Returns (λ _. Effect call c) (under_lock f c)
  section-Effect f i v ch =
      Returns-mono (under_lock-Changed f [] i c v.unlocked v.has_lock ch)
        λ a c' (e, ch'). quiet-Effect ch'

-- The slot that `make_slot` gives where its allocations succeed.
pub make_slot-some :
    (alloc : Alloc) (key : Key) (value : Entry) (t : ℕ)
    → Succeeds alloc
    → (new : Slot) × (make_slot alloc key value t ≡ some new)
      × (new.value ≡ value)
      × (new.key ≡ key)
      × (new.creation_time ≡ t)
unfolding make_slot
make_slot-some alloc key value t (p, q) = (
  record {
    key = key;
    value = value;
    num_hits = 0;
    creation_time = t;
    deletion_time = 0;
    access_time = t;
  },
  ground arith,
  refl,
  refl,
  refl,
)

-- The chain of an insert is the one of its key.
misfiled-IsKey :
    (d : KeyData) (h mtime n : ℕ) (md5 : List ℕ)
    → IsKey (record { key_data = d; h = h; mtime = mtime; md5 = md5 })
    → misfiled (h % n) n d h ≡ false
misfiled-IsKey (KeyData.file device inode) h mtime n md5 k = ground (arith, ==_refl (h % n))
misfiled-IsKey (KeyData.user identifier) h mtime n md5 k = ground (arith, ==_refl (h % n))
misfiled-IsKey (KeyData.fpfile fullpath) h mtime n md5 k = ground (arith, ==_refl (h % n))

added-brings :
    (new : Slot) (value : Entry) (key : Key) (o : Outcome) (n : ℕ)
    → new.value.address ≡ value.address
    → new.key ≡ key
    → IsKey key
    → ((a : ℕ) → tally (has_address a) (added_by new o) ≤ (if value.address == a then 1 else 0))
      × (tally (has_key (misfiled (key.h % n) n)) (added_by new o) ≡ 0)
added-brings new value key kept n e k legal = (λ a. zero-le, refl)
added-brings new value key no_memory n e k legal = (λ a. zero-le, refl)
added-brings new value key inserted n e k legal = (
  λ a. rw e (omega arith),
  ap (λ (b : Bool). (if b then 1 else 0) + 0)
      (subst (λ (x : Key). misfiled (key.h % n) n x.key_data x.h ≡ false) (sym k)
        (misfiled-IsKey key.key_data key.h key.mtime n key.md5 legal)),
)

module _ {call : Call} {c : Cache} where
  -- An insert under the lock, whatever is made of its outcome.
  insert_section-Effect :
      {A : Type 0} (f : Cache → Outcome × Cache) (result : Outcome → A) (value : Entry) (key : Key)
      (new : Slot)
      → IsIdle c
      → IsKey key
      → new.value.address ≡ value.address
      → new.key ≡ key
      → ((a : ℕ) → (if value.address == a then 1 else 0) ≤ brings a call)
      → Changed (added_by new (f (held c)).0) (key.h % c.num_slots) (held c) (f (held c)).1
      → Returns (λ _. Effect call c) (under_lock (λ d. let r = f d in (result (r.0), r.1)) c)
  insert_section-Effect f result value key new v legal e k within ch =
      let o = (f (held c)).0 in
      let i = key.h % c.num_slots in
      let (few, filed) = added-brings new value key o c.num_slots e k legal in
      Returns-mono
        (under_lock-Changed (λ d. let r = f d in (result (r.0), r.1)) (added_by new o) i c
          v.unlocked v.has_lock ch)
        λ a c' (_, ch'). effect (added_by new o) i ch' (λ b. omega (arith, few b, within b)) filed

  pub insert-Effect :
      (now t : ℕ) (force : Bool) (alloc : Alloc) (pool : PoolRef) (key : Key) (value : Entry)
      → IsIdle c
      → Succeeds alloc
      → IsKey key
      → ((a : ℕ) → (if value.address == a then 1 else 0) ≤ brings a call)
      → Returns (λ _. Effect call c) (insert now t force alloc pool key (some value) c)
  unfolding insert insert_value
  insert-Effect now t force alloc pool key value v s legal within =
      let (new, made, e, k, _) =
        make_slot-some alloc key (record value { mem_size = pool.size }) t s in
      insert_section-Effect (insert_locked now t force alloc pool key value) to_int value key new v
        legal (ap (λ (x : Entry). x.address) e) k within
        (insert_locked-Changed now t force alloc pool key value new (held c) made
          (ap (λ (x : Entry). x.mem_size) e) (index-lt key.h v))

  pub user_insert-Effect :
      (now pid t : ℕ) (slam exclusive : Bool) (alloc : Alloc) (pool : PoolRef) (key : Key)
      (value : Entry)
      → IsIdle c
      → Succeeds alloc
      → IsKey key
      → ((a : ℕ) → (if value.address == a then 1 else 0) ≤ brings a call)
      → Returns
          (λ _. Effect call c)
          (user_insert now pid t slam exclusive alloc pool key (some value) c)
  unfolding user_insert
  user_insert-Effect now pid t slam exclusive alloc pool key value v s legal within =
      let (new, made, e, k, _) =
        make_slot-some alloc key (record value { mem_size = pool.size }) t s in
      elim (Bool-cases (c.header.busy || is_last_key slam pid t key c.header.lastkey)) [
        | inl refused ↦ rw refused (returns (unchanged v))
        | inr free ↦ rw free (
            insert_section-Effect (user_insert_locked now pid t exclusive alloc pool key value)
              is_inserted value key new v legal (ap (λ (x : Entry). x.address) e) k within
              (user_insert_locked-Changed now pid t exclusive alloc pool key value new (held c) made
                (ap (λ (x : Entry). x.mem_size) e) (index-lt key.h v)))
      ]
