-- ===== src/Cache/Calls.antt =====
-- The calls of a history against the changes of `Changes`.
use pecl_caching_apc.Base.{
  ℕ, ◌%◌, ◌<◌, refl, Bool, true, false, List, [], ◌∷◌, Option, none, some, length, Bool-cases, inl,
  inr, subst, sym, ap, is_positive, add64, ◌∙◌,
}
use native.Mathlib.Nat.{le_refl}
use pecl_caching_apc.Cache.Types.{KeyData, Key, Entry, Slot, Chain, Header, Cache}
use pecl_caching_apc.Cache.Slots.{user_match, file_match}
use pecl_caching_apc.Cache.Lock.{Run, and_then, pure, on_chain}
use pecl_caching_apc.Cache.Find.{
  slot_index, find_slot, find, user_find, user_exists, user_update_walk, user_update, delete_walk,
  user_delete, forget, delete, entry_of,
}
use pecl_caching_apc.Cache.Clean.{Memory, clear, clear_locked, expunge, expunge_locked}
use pecl_caching_apc.Cache.Walks.{
  Walked, Walked-refl, Moved-keep, Moved-trans, Rewritten, Rewritten-Walked, Quiet-Walked,
}
use pecl_caching_apc.Cache.Accounting.{find_walk-Walked, user_find_walk-Walked, delete_walk-Walked}
use pecl_caching_apc.Cache.Changes.{
  Returns, returns, if-Returns, Changed, held, under_lock-ok, under_safe_lock-ok,
}
use pecl_caching_apc.Cache.Operations.{on_chain-Changed}
use pecl_caching_apc.Cache.Sweeps.{clear_locked-Changed, expunge_locked-Changed}
use pecl_caching_apc.Cache.Histories.{
  Call, inserts, user_inserts, finds, user_finds, user_checks, user_updates, user_deletes, deletes,
  clears, expunges, exec, IsLegal, IsUpdater,
}
use pecl_caching_apc.Cache.Effects.{
  IsIdle, Effect, index-lt, unchanged, section-Effect, insert-Effect, user_insert-Effect,
}

updated-Rewritten :
    (now : ℕ) (updater : Entry → Bool × Entry) (s : Slot)
    → IsUpdater updater
    → let k = s.key in
      Rewritten s (record s { key = record k { mtime = now }; value = (updater s.value).1 })
updated-Rewritten now updater s legal =
    let (address, size, count) = legal s.value in
    record {
      address = address;
      size = size;
      used = λ e. ap is_positive count ∙ e;
      key = refl;
      hash = refl;
    }

user_update_walk-Walked :
    (gc_ttl now h : ℕ) (strkey : List ℕ) (skip : Entry → Bool) (updater : Entry → Bool × Entry)
    (c : Chain) (hd : Header)
    → IsUpdater updater
    → let r = user_update_walk now h strkey skip updater c hd in Walked gc_ttl hd c (r.1) (r.2)
unfolding user_update_walk
user_update_walk-Walked gc_ttl now h strkey skip updater [] hd legal = Walked-refl hd []
user_update_walk-Walked gc_ttl now h strkey skip updater (s ∷ c) hd legal =
    elim (Bool-cases (user_match h strkey s)) [
      | inr other ↦
          rw other
            (Moved-keep s (user_update_walk-Walked gc_ttl now h strkey skip updater c hd legal))
      | inl same ↦ elim (Bool-cases (skip s.value)) [
        | inl left ↦ rw (same, left) (Walked-refl hd (s ∷ c))
        | inr write ↦
            rw (same, write) (Rewritten-Walked s _ c hd (updated-Rewritten now updater s legal))
      ]
    ]

slot_index-lt : {c : Cache} (key : Key) → IsIdle c → slot_index key c.num_slots < length c.slots
unfolding slot_index
slot_index-lt {c} key v = go key.key_data
  where
    go : (d : KeyData) → slot_index (record key { key_data = d }) c.num_slots < length c.slots
    go (KeyData.file device inode) = index-lt (add64 device inode) v
    go (KeyData.user identifier) = index-lt key.h v
    go (KeyData.fpfile fullpath) = index-lt key.h v

-- The last key is written on one of two ways out.
forgotten :
    {i : ℕ} {c : Cache} (r : Bool × Cache) → Changed [] i c (r.1) → Changed [] i c (forget r).1
unfolding forget
forgotten (true, d) ch = ch
forgotten (false, d) ch = record {
  moved = Moved-trans ch.moved (
      Quiet-Walked _
        (record { deleted = refl; freed = refl; entries = refl; memory = refl; locked = refl }));
  width = ch.width;
  num_slots = ch.num_slots;
  gc_ttl = ch.gc_ttl;
  ttl = ch.ttl;
  has_lock = ch.has_lock;
  chains = ch.chains;
}

bind-entry :
    {P : Cache → Type 0} {r : Run (Option Slot)}
    → Returns (λ _. P) r
    → Returns (λ _. P) (and_then r (λ slot. pure (entry_of slot)))
bind-entry (returns p) = returns p

bind-unit :
    {A : Type 0} {P : Cache → Type 0} {r : Run A}
    → Returns (λ _. P) r
    → Returns (λ _. P) (and_then r (λ _. pure tt))
bind-unit (returns p) = returns p

module _ {call : Call} {c : Cache} (v : IsIdle c) where
  find-Effect : (now : ℕ) (key : Key) (t : ℕ) → Returns (λ _. Effect call c) (find now key t c)
  unfolding find find_slot
  find-Effect now key t = bind-entry (
      section-Effect _ (slot_index key c.num_slots) v
        (on_chain-Changed _ _ (held c) (slot_index-lt key v) (find_walk-Walked now t key _ _)))

  user_find-Effect :
      (nhash : List ℕ → ℕ) (now : ℕ) (strkey : List ℕ) (t : ℕ)
      → Returns (λ _. Effect call c) (user_find nhash now strkey t c)
  unfolding user_find
  user_find-Effect nhash now strkey t = if-Returns c.header.busy (returns (unchanged v)) (
      section-Effect _ (nhash strkey % c.num_slots) v (
        on_chain-Changed _ _ (held c) (index-lt (nhash strkey) v)
          (user_find_walk-Walked now t (nhash strkey) strkey _ _)))

  user_exists-Effect :
      (nhash : List ℕ → ℕ) (strkey : List ℕ) (t : ℕ)
      → Returns (λ _. Effect call c) (user_exists nhash strkey t c)
  unfolding user_exists
  user_exists-Effect nhash strkey t = if-Returns c.header.busy (returns (unchanged v)) (
      section-Effect _ (nhash strkey % c.num_slots) v
        (on_chain-Changed _ _ (held c) (index-lt (nhash strkey) v) (Walked-refl _ _)))

  user_update-Effect :
      (nhash : List ℕ → ℕ) (now : ℕ) (strkey : List ℕ) (skip : Entry → Bool)
      (updater : Entry → Bool × Entry)
      → IsUpdater updater
      → Returns (λ _. Effect call c) (user_update nhash now strkey skip updater c)
  unfolding user_update
  user_update-Effect nhash now strkey skip updater legal =
      if-Returns c.header.busy (returns (unchanged v)) (
        section-Effect _ (nhash strkey % c.num_slots) v (
          on_chain-Changed _ _ (held c) (index-lt (nhash strkey) v)
            (user_update_walk-Walked c.gc_ttl now (nhash strkey) strkey skip updater _ _ legal)))

  user_delete-Effect :
      (nhash : List ℕ → ℕ) (now : ℕ) (strkey : List ℕ)
      → Returns (λ _. Effect call c) (user_delete nhash now strkey c)
  unfolding user_delete
  user_delete-Effect nhash now strkey =
      section-Effect _ (nhash strkey % c.num_slots) v
        (on_chain-Changed _ _ (held c) (index-lt (nhash strkey) v) (delete_walk-Walked now _ _ _))

  clear-Effect : (now : ℕ) → Returns (λ _. Effect call c) (clear now c)
  unfolding clear
  clear-Effect now = section-Effect (clear_locked now) 0 v (clear_locked-Changed now (held c))

  expunge-Effect :
      (memory : Memory) (now t size : ℕ)
      → Returns (λ _. Effect call c) (expunge memory now t size c)
  unfolding expunge
  expunge-Effect memory now t size =
      let ch = expunge_locked-Changed memory now t size (held c) in
      subst (Returns _)
        (under_lock-ok (expunge_locked memory now t size) c v.unlocked
          ∙ sym (
              under_safe_lock-ok (expunge_locked memory now t size) c v.unlocked v.has_lock
                ch.has_lock))
        (section-Effect (expunge_locked memory now t size) 0 v ch)

  delete-Effect : (now : ℕ) (key : Option Key) → Returns (λ _. Effect call c) (delete now key c)
  unfolding delete
  delete-Effect now none = returns (unchanged v)
  delete-Effect now (some key) = section-Effect _ (slot_index key c.num_slots) v (
      forgotten (on_chain (slot_index key c.num_slots) (delete_walk now (file_match key)) (held c))
        (on_chain-Changed _ _ (held c) (slot_index-lt key v) (delete_walk-Walked now _ _ _)))

module _ (nhash : List ℕ → ℕ) where
  -- Every call of a history runs to its end, and changes the cache as `Effect` says.
  pub exec-Effect :
      (call : Call) (c : Cache)
      → IsIdle c
      → IsLegal call
      → Returns (λ _. Effect call c) (exec nhash call c)
  unfolding exec
  exec-Effect (inserts now t force alloc pool key value) c v (s, k) =
      bind-unit (insert-Effect now t force alloc pool key value v s k (λ a. le_refl _))
  exec-Effect (user_inserts now pid t slam exclusive alloc pool key value) c v (s, k) =
      bind-unit
        (user_insert-Effect now pid t slam exclusive alloc pool key value v s k (λ a. le_refl _))
  exec-Effect (finds now key t) c v legal = bind-unit (find-Effect v now key t)
  exec-Effect (user_finds now strkey t) c v legal =
      bind-unit (user_find-Effect v nhash now strkey t)
  exec-Effect (user_checks strkey t) c v legal = bind-unit (user_exists-Effect v nhash strkey t)
  exec-Effect (user_updates now strkey skip updater) c v legal =
      bind-unit (user_update-Effect v nhash now strkey skip updater legal)
  exec-Effect (user_deletes now strkey) c v legal =
      bind-unit (user_delete-Effect v nhash now strkey)
  exec-Effect (deletes now key) c v legal = bind-unit (delete-Effect v now key)
  exec-Effect (clears now) c v legal = clear-Effect v now
  exec-Effect (expunges memory now t size) c v legal = expunge-Effect v memory now t size
