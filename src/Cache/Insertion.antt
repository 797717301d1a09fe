-- ===== src/Cache/Insertion.antt =====
-- The walks of the two inserts against the accounting of `Walks`.
use pecl_caching_apc.Base.{
  ℕ, suc, ◌+◌, ◌≡◌, refl, pos, Bool, not, ◌&&◌, ◌||◌, [], ◌∷◌, some, arith, if◌then◌else◌, length,
  Bool-cases, inl, inr, tally, weigh, ap,
}
use pecl_caching_apc.Cache.Types.{Key, Slot, Chain, Header}
use pecl_caching_apc.Cache.Slots.{
  user_match, file_match, same_type, hard_expired, idle, remove_slot,
}
use pecl_caching_apc.Cache.Insert.{
  Outcome, kept, inserted, replaces, insert_walk, count_inserted, key_text, user_insert_walk,
}
use pecl_caching_apc.Cache.Find.{has_address}
use pecl_caching_apc.Cache.Walks.{
  Moved, Walked, Walked-refl, Moved-keep, Walked-remove, remove_slot-Walked, mem_of, in_use,
  has_key,
}

-- `new` stands somewhere in the second chain, which is the first but for that.
pub data Adds (new : Slot) : Chain → Chain → Type 0 where
  here : (c : Chain) → Adds new c (new ∷ c)
  there : {c c' : Chain} (s : Slot) → Adds new c c' → Adds new (s ∷ c) (s ∷ c')

module _ {new : Slot} where
  pub Adds-tally :
      (p : Slot → Bool) {c c' : Chain}
      → Adds new c c'
      → tally p c' ≡ (if p new then 1 else 0) + tally p c
  Adds-tally p (here c) = refl
  Adds-tally p (there s a) = omega (arith, Adds-tally p a)

  Adds-length : {c c' : Chain} → Adds new c c' → length c' ≡ suc (length c)
  Adds-length (here c) = refl
  Adds-length (there s a) = ap suc (Adds-length a)

  Adds-weigh : (w : Slot → ℕ) {c c' : Chain} → Adds new c c' → weigh w c' ≡ w new + weigh w c
  Adds-weigh w (here c) = refl
  Adds-weigh w (there s a) = omega (arith, Adds-weigh w a)

  -- The new slot, counted by the header.
  pub Adds-Moved :
      {gc_ttl : ℕ} {hd hd' : Header} {c c' rest : Chain}
      → Walked gc_ttl hd c hd' rest
      → Adds new rest c'
      → Moved gc_ttl (new ∷ []) hd c (count_inserted (mem_of new) inserted hd') c'
  unfolding count_inserted
  Adds-Moved {gc_ttl} {hd} {hd'} {c} {c'} {rest} w a = record {
    total = λ b. omega (arith, w.total b, Adds-tally (has_address b) a);
    entries = λ n h. rw (w.entries n h) (ap pos (omega (arith, Adds-length a)));
    memory = λ m h. omega (arith, w.memory m h, Adds-weigh mem_of a);
    pinned = λ e b. omega (arith, w.pinned e b, Adds-tally (in_use b) a);
    fewer = λ p. omega (arith, w.fewer p, Adds-tally (has_key p) a);
    locked = w.locked;
  }

-- What an insert walk has done when it ends, if `make_slot` gave it a slot.
pub data Placed (gc_ttl : ℕ) (new : Slot) (hd : Header) (c : Chain)
    : Outcome → Header → Chain → Type 0 where
  stays :
      {hd' : Header} {c' : Chain} → Walked gc_ttl hd c hd' c' → Placed gc_ttl new hd c kept hd' c'
  comes :
      {hd' : Header} {rest c' : Chain}
      → Walked gc_ttl hd c hd' rest
      → Adds new rest c'
      → Placed gc_ttl new hd c inserted hd' c'

module _ {gc_ttl : ℕ} {new : Slot} where
  Placed-keep :
      {hd hd' : Header} {c c' : Chain} {o : Outcome} (s : Slot)
      → Placed gc_ttl new hd c o hd' c'
      → Placed gc_ttl new hd (s ∷ c) o hd' (s ∷ c')
  Placed-keep s (stays w) = stays (Moved-keep s w)
  Placed-keep s (comes w a) = comes (Moved-keep s w) (there s a)

  Placed-remove :
      {hd hd' : Header} {c c' : Chain} {o : Outcome} (now : ℕ) (s : Slot)
      → Placed gc_ttl new (remove_slot now s hd) c o hd' c'
      → Placed gc_ttl new hd (s ∷ c) o hd' c'
  Placed-remove now s (stays w) = stays (Walked-remove now s w)
  Placed-remove now s (comes w a) = comes (Walked-remove now s w) a

module _ (gc_ttl : ℕ) (new : Slot) where
  pub insert_walk-Placed :
      (now ttl t : ℕ) (force : Bool) (key : Key) (c : Chain) (hd : Header)
      → let r = insert_walk now ttl t force key (some new) c hd in
        Placed gc_ttl new hd c (r.0) (r.1) (r.2)
  unfolding insert_walk
  insert_walk-Placed now ttl t force key [] hd = comes (Walked-refl hd []) (here [])
  insert_walk-Placed now ttl t force key (s ∷ c) hd = elim (Bool-cases (file_match key s)) [
    | inl same ↦ elim (Bool-cases (replaces force key s)) [
      | inl give ↦ rw (same, give) (comes (remove_slot-Walked now s c hd) (here c))
      | inr stay ↦ rw (same, stay) (stays (Walked-refl hd (s ∷ c)))
    ]
    | inr other ↦ elim (Bool-cases (same_type key s && not (file_match key s) && idle ttl t s)) [
      | inl old ↦
          rw (old, other)
            (Placed-remove now s (insert_walk-Placed now ttl t force key c (remove_slot now s hd)))
      | inr fresh ↦ rw (fresh, other) (Placed-keep s (insert_walk-Placed now ttl t force key c hd))
    ]
  ]

  pub user_insert_walk-Placed :
      (now ttl t : ℕ) (exclusive : Bool) (key : Key) (c : Chain) (hd : Header)
      → let r = user_insert_walk now ttl t exclusive key (some new) c hd in
        Placed gc_ttl new hd c (r.0) (r.1) (r.2)
  unfolding user_insert_walk
  user_insert_walk-Placed now ttl t exclusive key [] hd = comes (Walked-refl hd []) (here [])
  user_insert_walk-Placed now ttl t exclusive key (s ∷ c) hd =
      elim (Bool-cases (user_match key.h (key_text key) s)) [
        | inl same ↦ elim (Bool-cases (exclusive && not (hard_expired t s))) [
          | inl stay ↦ rw (same, stay) (stays (Walked-refl hd (s ∷ c)))
          | inr give ↦ rw (same, give) (comes (remove_slot-Walked now s c hd) (here c))
        ]
        | inr other ↦ elim (Bool-cases (idle ttl t s || hard_expired t s)) [
          | inl old ↦
              rw (old, other)
                (Placed-remove now s
                  (user_insert_walk-Placed now ttl t exclusive key c (remove_slot now s hd)))
          | inr fresh ↦
              rw (fresh, other)
                (Placed-keep s (user_insert_walk-Placed now ttl t exclusive key c hd))
        ]
      ]
