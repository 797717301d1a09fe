-- ===== src/Cache/Walks.antt =====
-- What every walk over slots keeps, whatever it removes: the accounting of entries, of the
-- header's counters, and of the entries in use.
use pecl_caching_apc.Base.{
  ℕ, ◌+◌, ◌%◌, ◌≤◌, ◌≡◌, refl, pos, Bool, true, ◌&&◌, [], ◌∷◌, ◌++◌, arith, tally, weigh, length,
  is_positive, length-append, tally-append, weigh-append, Bool-cases, inl, inr, word_mod, ◌∙◌, ap,
}
use pecl_caching_apc.Cache.Types.{KeyData, Slot, Chain, Header}
use pecl_caching_apc.Cache.Slots.{free_slot, remove_slot}
use pecl_caching_apc.Cache.Find.{has_address}

-- In how many slots, live, pending or freed, an entry stands.
abbrev pub owned : ℕ → Header → Chain → ℕ
owned a hd c =
    tally (has_address a) c + tally (has_address a) hd.deleted_list + tally (has_address a) hd.freed

-- The slot of an entry that is in use.
abbrev pub in_use : ℕ → Slot → Bool
in_use a s = has_address a s && is_positive s.value.ref_count

-- In how many slots, live or pending, an entry stands that is in use.
abbrev pub pins : ℕ → Header → Chain → ℕ
pins a hd c = tally (in_use a) c + tally (in_use a) hd.deleted_list

abbrev pub mem_of : Slot → ℕ
mem_of s = s.value.mem_size

abbrev pub has_key : (KeyData → ℕ → Bool) → Slot → Bool
has_key p s = p s.key.key_data s.key.h

-- From header `hd` and slots `c` to `hd'` and `c'`, slots may move to the pending list or be freed,
-- and those of `added` come in.
pub record Moved (gc_ttl : ℕ) (added : Chain) (hd : Header) (c : Chain) (hd' : Header) (c' : Chain)
    : Type 0 where
  -- No entry is lost, and none is freed twice.
  pub total : (a : ℕ) → owned a hd' c' ≡ tally (has_address a) added + owned a hd c
  -- `num_entries` and `mem_size` follow, beside any other slots.
  pub entries :
      (n : ℕ) → hd.num_entries ≡ pos (n + length c) → hd'.num_entries ≡ pos (n + length c')
  pub memory :
      (m : ℕ)
      → hd.mem_size ≡ (m + weigh mem_of c) % word_mod
      → hd'.mem_size ≡ (m + weigh mem_of c') % word_mod
  -- What is in use is not freed, unless a limit on the pending time is set.
  pub pinned : gc_ttl ≡ 0 → (a : ℕ) → pins a hd c ≤ pins a hd' c'
  -- No key appears that was not there.
  pub fewer :
      (p : KeyData → ℕ → Bool)
      → tally (has_key p) c' ≤ tally (has_key p) added + tally (has_key p) c
  pub locked : hd'.locked ≡ hd.locked

-- Nothing is added.
abbrev pub Walked : ℕ → Header → Chain → Header → Chain → Type 0
Walked gc_ttl hd c hd' c' = Moved gc_ttl [] hd c hd' c'

-- A slot is written in place: the same entry of the same size, no less in use, and the same key.
pub record Rewritten (s s' : Slot) : Type 0 where
  pub address : s'.value.address ≡ s.value.address
  pub size : s'.value.mem_size ≡ s.value.mem_size
  pub used : is_positive s.value.ref_count ≡ true → is_positive s'.value.ref_count ≡ true
  pub key : s'.key.key_data ≡ s.key.key_data
  pub hash : s'.key.h ≡ s.key.h

-- The header changes in none of what the accounting reads.
pub record Quiet (hd hd' : Header) : Type 0 where
  pub deleted : hd'.deleted_list ≡ hd.deleted_list
  pub freed : hd'.freed ≡ hd.freed
  pub entries : hd'.num_entries ≡ hd.num_entries
  pub memory : hd'.mem_size ≡ hd.mem_size
  pub locked : hd'.locked ≡ hd.locked

module _ {gc_ttl : ℕ} where
  pub Walked-refl : (hd : Header) (c : Chain) → Walked gc_ttl hd c hd c
  Walked-refl hd c = record {
    total = λ a. omega arith;
    entries = λ n h. h;
    memory = λ m h. h;
    pinned = λ e a. omega arith;
    fewer = λ p. omega arith;
    locked = refl;
  }

  pub Moved-trans :
      {added added' : Chain} {hd hd' hd'' : Header} {c c' c'' : Chain}
      → Moved gc_ttl added hd c hd' c'
      → Moved gc_ttl added' hd' c' hd'' c''
      → Moved gc_ttl (added' ++ added) hd c hd'' c''
  Moved-trans {added} {added'} u v = record {
    total = λ a. omega (arith, u.total a, v.total a, tally-append (has_address a) added' added);
    entries = λ n h. v.entries n (u.entries n h);
    memory = λ m h. v.memory m (u.memory m h);
    pinned = λ e a. omega (arith, u.pinned e a, v.pinned e a);
    fewer = λ p. omega (arith, u.fewer p, v.fewer p, tally-append (has_key p) added' added);
    locked = v.locked ∙ u.locked;
  }

  -- Other slots stand beside a walk, on either side.
  pub Moved-append :
      {added : Chain} {hd hd' : Header} {c c' : Chain} (d : Chain)
      → Moved gc_ttl added hd c hd' c'
      → Moved gc_ttl added hd (c ++ d) hd' (c' ++ d)
  Moved-append {hd} {hd'} {c} {c'} d w = record {
    total = λ a.
        omega
          (arith, w.total a, tally-append (has_address a) c d, tally-append (has_address a) c' d);
    entries = λ n h.
        let both = w.entries (n + length d) (h ∙ ap pos (omega (arith, length-append c d))) in
        both ∙ ap pos (omega (arith, length-append c' d));
    memory = λ m h.
        let both =
          w.memory (m + weigh mem_of d)
            (h ∙ ap (λ (x : ℕ). x % word_mod) (omega (arith, weigh-append mem_of c d))) in
        both ∙ ap (λ (x : ℕ). x % word_mod) (omega (arith, weigh-append mem_of c' d));
    pinned = λ e a.
        omega (arith, w.pinned e a, tally-append (in_use a) c d, tally-append (in_use a) c' d);
    fewer =
        λ p. omega (arith, w.fewer p, tally-append (has_key p) c d, tally-append (has_key p) c' d);
    locked = w.locked;
  }

  -- The walk passes a slot by.
  pub Moved-keep :
      {added : Chain} {hd hd' : Header} {c c' : Chain} (s : Slot)
      → Moved gc_ttl added hd c hd' c'
      → Moved gc_ttl added hd (s ∷ c) hd' (s ∷ c')
  Moved-keep {hd} {hd'} {c} {c'} s w = record {
    total = λ a. omega (arith, w.total a);
    entries = λ n h. w.entries (n + 1) (h ∙ ap pos (omega arith)) ∙ ap pos (omega arith);
    memory = λ m h.
        w.memory (m + mem_of s) (h ∙ ap (λ (x : ℕ). x % word_mod) (omega arith))
        ∙ ap (λ (x : ℕ). x % word_mod) (omega arith);
    pinned = λ e a. omega (arith, w.pinned e a);
    fewer = λ p. omega (arith, w.fewer p);
    locked = w.locked;
  }

  pub Moved-prepend :
      {added : Chain} {hd hd' : Header} {c c' : Chain} (d : Chain)
      → Moved gc_ttl added hd c hd' c'
      → Moved gc_ttl added hd (d ++ c) hd' (d ++ c')
  Moved-prepend [] w = w
  Moved-prepend (s ∷ d) w = Moved-keep s (Moved-prepend d w)

  -- `remove_slot` of the first slot.
  pub remove_slot-Walked :
      (now : ℕ) (s : Slot) (c : Chain) (hd : Header)
      → Walked gc_ttl hd (s ∷ c) (remove_slot now s hd) c
  unfolding remove_slot free_slot
  remove_slot-Walked now s c hd = elim (Bool-cases (is_positive s.value.ref_count)) [
    | inl used ↦ record {
      total = λ a. rw used (omega arith);
      entries = λ n h. rw used (rw h (ground arith));
      memory = λ m h. rw used (omega arith);
      pinned = λ e a. ground (arith, used);
      fewer = λ p. omega arith;
      locked = rw used;
    }
    | inr unused ↦ record {
      total = λ a. rw unused (omega arith);
      entries = λ n h. rw unused (rw h (ground arith));
      memory = λ m h. rw unused (omega arith);
      pinned = λ e a. rw unused (ground arith);
      fewer = λ p. omega arith;
      locked = rw unused;
    }
  ]

  pub Walked-remove :
      {hd hd' : Header} {c c' : Chain} (now : ℕ) (s : Slot)
      → Walked gc_ttl (remove_slot now s hd) c hd' c'
      → Walked gc_ttl hd (s ∷ c) hd' c'
  Walked-remove {hd} {c} now s w = Moved-trans (remove_slot-Walked now s c hd) w

  pub Quiet-Walked : (c : Chain) {hd hd' : Header} → Quiet hd hd' → Walked gc_ttl hd c hd' c
  Quiet-Walked c q = record {
    total = λ a. rw (q.deleted, q.freed) (omega arith);
    entries = λ n h. q.entries ∙ h;
    memory = λ m h. q.memory ∙ h;
    pinned = λ e a. rw q.deleted (omega arith);
    fewer = λ p. omega arith;
    locked = q.locked;
  }

  pub Rewritten-Walked :
      (s s' : Slot) (c : Chain) (hd : Header)
      → Rewritten s s'
      → Walked gc_ttl hd (s ∷ c) hd (s' ∷ c)
  Rewritten-Walked s s' c hd r = record {
    total = λ a. rw r.address (omega arith);
    entries = λ n h. h;
    memory = λ m h. rw r.size h;
    pinned = λ e a. elim (Bool-cases (is_positive s.value.ref_count)) [
      | inl used ↦ rw (r.address, used, r.used used) (omega arith)
      | inr unused ↦ rw (r.address, unused) (ground arith)
    ];
    fewer = λ p. rw (r.key, r.hash) (omega arith);
    locked = refl;
  }
