-- ===== src/Iterator/Complete.antt =====
-- A `foreach` over the active list of a cache that nobody changes meanwhile.
use pecl_caching_apc.Base.{
  ℕ, zero, suc, ◌+◌, ◌-◌, ◌≤◌, ◌<◌, ◌≡◌, inl, inr, refl, Bool, true, false, not, Option, none, some,
  List, [], ◌∷◌, ◌++◌, map, append_assoc, append-nil, arith, if◌then◌else◌, get_or, length,
  length-append, ◌==◌, ap, sym, ◌∙◌, subst,
}
use pecl_caching_apc.Cache.Types.{Slot, Chain, Cache}
use pecl_caching_apc.Cache.Find.{flat}
use pecl_caching_apc.Cache.Lock.{Run, ok, deadlock, dangling}
use pecl_caching_apc.Cache.Changes.{held, given_back, under_lock-ok}
use pecl_caching_apc.Stack
use pecl_caching_apc.Stack.{Stack}
use pecl_caching_apc.Stack.Laws.{Holds, clear-Holds, get-eq}
use pecl_caching_apc.Iterator.{Item, Iterator, active}
use pecl_caching_apc.Iterator.Items.{search_match}
use pecl_caching_apc.Iterator.Fetch.{Found, fetch_chains, fetch_active, fetch_by, fetch}
use pecl_caching_apc.Iterator.Methods.{rewind, refill, valid, current, next}
use pecl_caching_apc.Iterator.Walk.{
  wanted, select, pending_items, table_items, Fetched, fetch_chains-Fetched, pending_items-end,
}

-- The engine's loop: `rewind`, and while `valid` says so, `current` and `next`. None where a method
-- does not come back, or the rounds have run out.
abbrev pub prepend : Option Item → Option (List Item) → Option (List Item)
prepend none l = none
prepend (some i) none = none
prepend (some i) (some l) = some (i ∷ l)

module _ (ctor : ℕ → Slot → Item) (t : ℕ) where
  abbrev pub after_current :
      (rest : Iterator → Cache → Option (List Item))
      → Run (Option Item × Iterator)
      → Option (List Item)
  after_current rest (ok a c) = prepend (a.0) (rest ((next (a.1)).1) c)
  after_current rest deadlock = none
  after_current rest dangling = none

  abbrev pub after_valid :
      (rest : Iterator → Cache → Option (List Item)) → Run (Bool × Iterator) → Option (List Item)
  after_valid rest (ok a c) = if a.0 then after_current rest (current ctor t (a.1) c) else some []
  after_valid rest deadlock = none
  after_valid rest dangling = none

  unfoldable pub drain : (rounds : ℕ) → Iterator → Cache → Option (List Item)
  drain zero it c = none
  drain (suc rounds) it c = after_valid (drain rounds) (valid ctor t it c)

  abbrev pub after_rewind : (rounds : ℕ) → Run Iterator → Option (List Item)
  after_rewind rounds (ok it c) = drain rounds it c
  after_rewind rounds deadlock = none
  after_rewind rounds dangling = none

  unfoldable pub foreach : (rounds : ℕ) → Iterator → Cache → Option (List Item)
  unfolding drain
  foreach rounds it c = after_rewind rounds (rewind ctor t it c)

-- No process holds the lock.
pub record IsIdle (c : Cache) : Type 0 where
  pub unlocked : c.header.locked ≡ false
  pub none_held : c.has_lock ≡ 0
  pub table : c.num_slots ≡ length c.slots

pub given_back-held : (c : Cache) → IsIdle c → given_back (held c) ≡ c
given_back-held c h =
    ap (λ b. record c { header = let hd = c.header in record hd { locked = b }; has_lock = 0 })
      (sym h.unlocked)
    ∙ ap (λ n. record c { has_lock = n }) (sym h.none_held)

abbrev moved : Iterator → (slot_idx : ℕ) → Stack Item → (stack_idx key_idx : ℕ) → Iterator
moved it j st k n = record it { slot_idx = j; stack = st; stack_idx = k; key_idx = n }

select-append : (p : Slot → Bool) (xs ys : Chain) → select p (xs ++ ys) ≡ select p xs ++ select p ys
select-append p [] ys = refl
select-append p (s ∷ xs) ys = ground (arith, select-append p xs ys)

map-append_lists : (f : Slot → Item) (xs ys : Chain) → map f (xs ++ ys) ≡ map f xs ++ map f ys
map-append_lists f [] ys = refl
map-append_lists f (x ∷ xs) ys = ap (λ l. f x ∷ l) (map-append_lists f xs ys)

table_items-flat :
    (make : Slot → Item) (p : Slot → Bool) (slots : List Chain)
    → table_items make p slots ≡ map make (select p (flat slots))
table_items-flat make p [] = refl
table_items-flat make p (l ∷ ls) =
    ap (λ xs. map make (select p l) ++ xs) (table_items-flat make p ls)
    ∙ sym (map-append_lists make (select p l) (select p (flat ls)))
    ∙ ap (map make) (sym (select-append p l (flat ls)))

pending_items-all :
    (make : Slot → Item) (p : Slot → Bool) (slots : List Chain)
    → pending_items make p slots 0 ≡ map make (select p (flat slots))
pending_items-all make p [] = refl
pending_items-all make p (l ∷ ls) = table_items-flat make p (l ∷ ls)

get_or-behind :
    (seen ys : List Item) (y : Item)
    → get_or (map some (seen ++ y ∷ ys)) (length seen) none ≡ some y
get_or-behind [] ys y = refl
get_or-behind (x ∷ seen) ys y = get_or-behind seen ys y

module _ (ctor : ℕ → Slot → Item) (t : ℕ) (it : Iterator) (c : Cache) (h : IsIdle c)
    (is_active : it.fetch ≡ active) where
  -- The items of the live slots that the search wants, from a chain on.
  abbrev rest_from : ℕ → List Item
  rest_from j = pending_items (ctor it.format) (wanted c.ttl t it) c.slots j

  abbrev chains : (j k n : ℕ) → Stack Item → ℕ × Found
  chains j k n st =
      fetch_chains ctor (c.num_slots - j) c.ttl t (moved it j st k n) c.slots j
        (record { found = 0; items = Stack.clear st })

  abbrev refilled : (j k n : ℕ) → Stack Item → Iterator
  refilled j k n st = moved it ((chains j k n st).0) ((chains j k n st).1.items) 0 n

  fetch-eq :
      (j k n : ℕ) (st : Stack Item)
      → fetch ctor t (moved it j st k n) c ≡ ok ((chains j k n st).1.found, refilled j k n st) c
  unfolding fetch_by fetch_active
  fetch-eq j k n st =
      let i = moved it j st k n in
      ap (λ l. fetch_by ctor l t i c) is_active
      ∙ under_lock-ok _ c h.unlocked
      ∙ ap (ok ((chains j k n st).1.found, refilled j k n st)) (given_back-held c h)

  fetched :
      (j k n : ℕ) (st : Stack Item) (xs : List Item)
      → Holds st xs
      → j ≤ length c.slots
      → Fetched ctor c.ttl t
          (moved it j st k n)
          c.slots
          j
          (record { found = 0; items = Stack.clear st })
          []
          (chains j k n st)
  fetched j k n st xs holds inside =
      fetch_chains-Fetched ctor c.ttl t (moved it j st k n) (c.num_slots - j) j c.slots _ []
        (clear-Holds st xs holds) (omega (arith, h.table))

  -- An item that has not been read yet is the current one.
  get_item :
      (st : Stack Item) (k : ℕ) (seen ys : List Item) (y : Item)
      → Holds st (seen ++ y ∷ ys)
      → k ≡ length seen
      → Stack.get st k ≡ some y
  get_item st k seen ys y holds e =
      get-eq st (seen ++ y ∷ ys) k holds
      ∙ ap (λ i. get_or (map some (seen ++ y ∷ ys)) i none) e
      ∙ get_or-behind seen ys y

  not_spent :
      (st : Stack Item) (k : ℕ) (seen ys : List Item) (y : Item)
      → Holds st (seen ++ y ∷ ys)
      → k ≡ length seen
      → ((st.size == k) ≡ false) × ((st.size == 0) ≡ false)
  not_spent st k seen ys y holds e = ground (arith, holds.count, length-append seen (y ∷ ys))

  -- From an item that has not been read, the loop goes on to the next one.
  drain-item :
      (rounds j k n : ℕ) (st : Stack Item) (seen ys : List Item) (y : Item)
      → Holds st (seen ++ y ∷ ys)
      → k ≡ length seen
      → after_valid ctor t (drain ctor t rounds) (ok (true, moved it j st k n) c)
        ≡ prepend (some y) (drain ctor t rounds (moved it j st (k + 1) (n + 1)) c)
  unfolding current refill next
  drain-item rounds j k n st seen ys y holds e =
      let (unspent, filled) = not_spent st k seen ys y holds e in
      rw (unspent, get_item st k seen ys y holds e, filled) refl

  -- The loop from where `stack_idx` and `slot_idx` stand: the items that are on the stack and have
  -- not been read, then those of the chains that have not been fetched.
  abbrev Drains : (rounds j k n : ℕ) (st : Stack Item) (seen todo : List Item) → Type 0
  Drains rounds j k n st seen todo =
      Holds st (seen ++ todo)
      → k ≡ length seen
      → j ≤ length c.slots
      → length (todo ++ rest_from j) < rounds
      → drain ctor t rounds (moved it j st k n) c ≡ some (todo ++ rest_from j)

  valid-unread :
      (j k n : ℕ) (st : Stack Item) (seen ys : List Item) (y : Item)
      → Holds st (seen ++ y ∷ ys)
      → k ≡ length seen
      → valid ctor t (moved it j st k n) c ≡ ok (true, moved it j st k n) c
  unfolding valid refill
  valid-unread j k n st seen ys y holds e =
      let (unspent, filled) = not_spent st k seen ys y holds e in rw (unspent, filled) refl

  drain-unread :
      (rounds j k n : ℕ) (st : Stack Item) (seen ys : List Item) (y : Item)
      → ((k' n' : ℕ) (seen' : List Item) → Drains rounds j k' n' st seen' ys)
      → Holds st (seen ++ y ∷ ys)
      → k ≡ length seen
      → j ≤ length c.slots
      → length (y ∷ ys ++ rest_from j) < suc rounds
      → after_valid ctor t (drain ctor t rounds) (ok (true, moved it j st k n) c)
        ≡ some (y ∷ ys ++ rest_from j)
  drain-unread rounds j k n st seen ys y ih holds e inside enough =
      drain-item rounds j k n st seen ys y holds e
      ∙ ap (prepend (some y)) (
          ih (k + 1) (n + 1) (seen ++ y ∷ [])
            (subst (Holds st) (sym (append_assoc seen (y ∷ []) ys)) holds)
            (omega (arith, length-append seen (y ∷ []))) inside (omega arith))

  remains :
      (j k n : ℕ) (st : Stack Item)
      (f : Fetched ctor c.ttl t
        (moved it j st k n)
        c.slots
        j
        (record { found = 0; items = Stack.clear st })
        []
        (chains j k n st))
      → rest_from j ≡ f.brought ++ rest_from ((chains j k n st).0)
  unfolding search_match
  remains j k n st f = f.remaining

  no_more :
      (j k n : ℕ) (st : Stack Item)
      (f : Fetched ctor c.ttl t
        (moved it j st k n)
        c.slots
        j
        (record { found = 0; items = Stack.clear st })
        []
        (chains j k n st))
      → length f.brought ≡ 0
      → rest_from ((chains j k n st).0) ≡ []
  no_more j k n st f none_found = elim f.stops [
    | inl ended ↦ pending_items-end (ctor it.format) (wanted c.ttl t it) c.slots _ ended
    | inr more ↦ absurd (omega (arith, f.pushed.1, more))
  ]

  valid-spent :
      (j k n : ℕ) (st : Stack Item) (seen : List Item)
      → Holds st seen
      → k ≡ length seen
      → valid ctor t (moved it j st k n) c
        ≡ ok (not ((chains j k n st).1.items.size == 0), refilled j k n st) c
  unfolding valid refill
  valid-spent j k n st seen holds e =
      let spent : (st.size == k) ≡ true = ground (arith, holds.count) in
      rw (spent, fetch-eq j k n st) refl

  -- Where a fetch brings nothing the loop ends, and otherwise it goes on with what it has brought.
  drain-refilled :
      (rounds j n : ℕ) (st : Stack Item) (brought : List Item)
      → ((k' n' : ℕ) (seen' ys : List Item) → Drains rounds j k' n' st seen' ys)
      → Holds st brought
      → j ≤ length c.slots
      → (length brought ≡ 0 → rest_from j ≡ [])
      → length (brought ++ rest_from j) < suc rounds
      → after_valid ctor t (drain ctor t rounds) (ok (not (st.size == 0), moved it j st 0 n) c)
        ≡ some (brought ++ rest_from j)
  drain-refilled rounds j n st [] ih holds inside ends enough =
      let none_left : (st.size == 0) ≡ true = ground (arith, holds.count) in
      rw none_left (ap some (sym (ends refl)))
  drain-refilled rounds j n st (y ∷ ys) ih holds inside ends enough =
      let filled : (st.size == 0) ≡ false = ground (arith, holds.count) in
      rw filled (
        drain-unread rounds j 0 n st [] ys y (λ k' n' seen'. ih k' n' seen' ys) holds refl inside
          enough)

  pub drain-eq :
      (rounds j k n : ℕ) (st : Stack Item) (seen todo : List Item)
      → Drains rounds j k n st seen todo
  unfolding drain
  drain-eq zero j k n st seen todo holds e inside enough = absurd (omega arith)
  drain-eq (suc rounds) j k n st seen (y ∷ ys) holds e inside enough =
      ap (after_valid ctor t (drain ctor t rounds)) (valid-unread j k n st seen ys y holds e)
      ∙ drain-unread rounds j k n st seen ys y (λ k' n' seen'. drain-eq rounds j k' n' st seen' ys)
          holds e inside enough
  drain-eq (suc rounds) j k n st seen [] holds e inside enough =
      let out = chains j k n st in
      let seen_only = subst (Holds st) (append-nil seen) holds in
      let f = fetched j k n st seen seen_only inside in
      ap (after_valid ctor t (drain ctor t rounds)) (valid-spent j k n st seen seen_only e)
      ∙ drain-refilled rounds (out.0) n (out.1.items) f.brought
          (λ k' n' seen' ys'. drain-eq rounds (out.0) k' n' (out.1.items) seen' ys') (f.pushed.0)
          f.inside (λ none_found. no_more j k n st f none_found)
          (subst (λ l. length l < suc rounds) (remains j k n st f) enough)
      ∙ ap some (sym (remains j k n st f))

  -- A `foreach` over the active list of a cache whose lock is free, and that nobody changes
  -- meanwhile, ends, and returns an item for each slot of the table that is within its limit and
  -- that the search matches: each once, in the order of the table, whatever the chunk size. The
  -- rounds are more than these items, and the iterator's stack is in order.
  pub foreach-eq :
      (rounds : ℕ) (old : List Item)
      → Holds it.stack old
      → length (map (ctor it.format) (select (wanted c.ttl t it) (flat c.slots))) < rounds
      → foreach ctor t rounds it c
        ≡ some (map (ctor it.format) (select (wanted c.ttl t it) (flat c.slots)))
  unfolding foreach rewind
  foreach-eq rounds old holds enough =
      let out = chains 0 0 0 it.stack in
      let f = fetched 0 0 0 it.stack old holds (omega arith) in
      let all = pending_items-all (ctor it.format) (wanted c.ttl t it) c.slots in
      let parts = sym (remains 0 0 0 it.stack f) ∙ all in
      rw (fetch-eq 0 0 0 it.stack) (
        drain-eq rounds (out.0) 0 0 (out.1.items) [] f.brought (f.pushed.0) refl f.inside
          (subst (λ l. length l < rounds) (sym parts) enough)
        ∙ ap some parts)
