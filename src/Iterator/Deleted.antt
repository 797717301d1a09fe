-- ===== src/Iterator/Deleted.antt =====
-- A `foreach` over the list of deleted slots.
use pecl_caching_apc.Base.{
  ℕ, zero, suc, ◌+◌, ◌≤◌, ◌<◌, ◌≡◌, refl, false, not, Option, none, some, [], ◌∷◌, arith,
  if◌then◌else◌, Bool-cases, inl, inr, ◌==◌, ap, ◌∙◌,
}
use pecl_caching_apc.Cache.Types.{Slot, Chain, Cache}
use pecl_caching_apc.Cache.Lock.{ok, pure}
use pecl_caching_apc.Cache.Changes.{under_lock-ok}
use pecl_caching_apc.Stack.Laws.{push-size}
use pecl_caching_apc.Iterator.{Item, Iterator, deleted}
use pecl_caching_apc.Iterator.Fetch.{Found, push_item, fetch_list, skip, fetch_deleted, fetch_by}
use pecl_caching_apc.Iterator.Methods.{refill, valid, current, next, item_at}
use pecl_caching_apc.Iterator.Complete.{
  IsIdle, given_back-held, prepend, after_current, after_valid, drain,
}

-- An iterator of the deleted list with an item on its stack.
pub record IsStuck (it : Iterator) : Type 0 where
  pub of_deleted : it.fetch ≡ deleted
  pub some_item : 0 < it.stack.size

prepend-none : (o : Option Item) → prepend o none ≡ none
prepend-none none = refl
prepend-none (some i) = refl

next-IsStuck : (it : Iterator) → IsStuck it → IsStuck (next it).1
unfolding next
next-IsStuck it s = elim (Bool-cases (it.stack.size == 0)) [
  | inl e ↦ absurd (ground (arith, s.some_item))
  | inr e ↦ rw e (record { of_deleted = s.of_deleted; some_item = s.some_item })
]

item_at-IsStuck :
    (ctor : ℕ → Slot → Item) (r : ℕ × Iterator) → IsStuck (r.1) → IsStuck (item_at ctor r).1
item_at-IsStuck ctor r s = elim (Bool-cases (r.0 == 0)) [ inl e ↦ rw e s | inr e ↦ rw e s ]

module _ (ctor : ℕ → Slot → Item) (t : ℕ) where
  -- A fetch of the deleted list takes nothing off the stack.
  fetch_list-size :
      (it : Iterator) (c : Chain) (r : Found) → r.items.size ≤ (fetch_list ctor it c r).items.size
  unfolding fetch_list
  fetch_list-size it [] r = omega arith
  fetch_list-size it (s ∷ c) r = ground (
    arith,
    push-size r.items (ctor it.format s),
    fetch_list-size it c r,
    fetch_list-size it c (push_item (ctor it.format s) r),
  )

  -- The list and the items after a fetch.
  abbrev fetched : Iterator → Cache → Found
  fetched it c =
      fetch_list ctor it (skip ctor 0 it.slot_idx c.header.deleted_list)
        (record { found = 0; items = it.stack })

  abbrev refetched : Iterator → Cache → ℕ × Iterator
  refetched it c = (
    (fetched it c).found,
    record it {
      slot_idx = it.slot_idx + (fetched it c).found;
      stack = (fetched it c).items;
      stack_idx = 0;
    },
  )

  module _ (c : Cache) (h : IsIdle c) where
    fetch_deleted-eq : (it : Iterator) → fetch_deleted ctor it c ≡ ok (refetched it c) c
    unfolding fetch_deleted
    fetch_deleted-eq it =
        under_lock-ok _ c h.unlocked ∙ ap (ok (refetched it c)) (given_back-held c h)

    refill-IsStuck :
        (it : Iterator)
        → IsStuck it
        → (r : ℕ × Iterator) × (refill ctor t it c ≡ ok r c) × IsStuck (r.1)
    unfolding refill fetch_by
    refill-IsStuck it s = elim (Bool-cases (it.stack.size == it.stack_idx)) [
      | inr e ↦ ((1, it), rw e refl, s)
      | inl e ↦ (
        refetched it c,
        ap (λ b. (if b then fetch_by ctor it.fetch t it else pure (1, it)) c) e
            ∙ ap (λ l. fetch_by ctor l t it c) s.of_deleted
            ∙ fetch_deleted-eq it,
        record {
          of_deleted = s.of_deleted;
          some_item = omega (
            arith,
            s.some_item,
            fetch_list-size it (skip ctor 0 it.slot_idx c.header.deleted_list)
                (record { found = 0; items = it.stack }),
          );
        },
      )
    ]

    -- Whatever `current` returns, the loop does not end behind it.
    after_current-none :
        (rounds : ℕ) (r : ℕ × Iterator)
        → ((it : Iterator) → IsStuck it → drain ctor t rounds it c ≡ none)
        → IsStuck (r.1)
        → after_current ctor t (drain ctor t rounds) (ok (item_at ctor r) c) ≡ none
    after_current-none rounds r ih s =
        ap (prepend (item_at ctor r).0) (ih _ (next-IsStuck _ (item_at-IsStuck ctor r s)))
        ∙ prepend-none (item_at ctor r).0

    after_valid-none :
        (rounds : ℕ) (it : Iterator)
        → ((it : Iterator) → IsStuck it → drain ctor t rounds it c ≡ none)
        → IsStuck it
        → after_valid ctor t (drain ctor t rounds) (ok (not (it.stack.size == 0), it) c) ≡ none
    unfolding current
    after_valid-none rounds it ih s =
        let filled : (it.stack.size == 0) ≡ false = ground (arith, s.some_item) in
        let (r, e, s') = refill-IsStuck it s in rw (filled, e) (after_current-none rounds r ih s')

    -- A `foreach` over the deleted list never ends once an item is on the iterator's stack: after
    -- any number of rounds `valid` has not said false, on a cache whose lock is free and that nobody
    -- changes.
    pub drain-endless : (rounds : ℕ) (it : Iterator) → IsStuck it → drain ctor t rounds it c ≡ none
    unfolding drain valid
    drain-endless zero it s = refl
    drain-endless (suc rounds) it s =
        let (r, e, s') = refill-IsStuck it s in
        rw e (after_valid-none rounds (r.1) (drain-endless rounds) s')
