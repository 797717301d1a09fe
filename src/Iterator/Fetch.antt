-- ===== src/Iterator/Fetch.antt =====
-- apc_iterator.c: `apc_iterator_fetch_active`, `apc_iterator_fetch_deleted` and the totals.
use pecl_caching_apc.Base.{
  ℕ, zero, suc, ◌+◌, ◌-◌, true, ◌&&◌, List, [], ◌∷◌, ltb, leb, if◌then◌else◌, get_or, add64,
}
use pecl_caching_apc.Cache.Types.{Slot, Chain}
use pecl_caching_apc.Cache.Lock.{Cmd, under_lock}
use pecl_caching_apc.Stack
use pecl_caching_apc.Stack.{Stack}
use pecl_caching_apc.Iterator.{Item, Iterator, Listing, active, deleted}
use pecl_caching_apc.Iterator.Items.{search_match, check_expiry}

-- The items are pushed as they are found.
pub record Found : Type 0 where
  pub found : ℕ
  pub items : Stack Item

abbrev pub push_item : Item → Found → Found
push_item i r = record { found = r.found + 1; items = Stack.push r.items i }

module _ (ctor : ℕ → Slot → Item) where
  -- The inner loop of `apc_iterator_fetch_active`, along one chain.
  unfoldable pub fetch_chain : (ttl t : ℕ) → Iterator → Chain → Found → Found
  fetch_chain ttl t it [] r = r
  fetch_chain ttl t it (s ∷ c) r =
      fetch_chain ttl t it c
        (if check_expiry ttl t s && search_match it s then push_item (ctor it.format s) r else r)

  -- The outer loop, with the chains that are left as fuel: it ends after the chain in which the
  -- count has come above the chunk size. The result is the index of the next chain.
  unfoldable pub fetch_chains :
      (fuel : ℕ) (ttl t : ℕ) → Iterator → List Chain → (slot_idx : ℕ) → Found → ℕ × Found
  unfolding fetch_chain
  fetch_chains zero ttl t it slots slot_idx r = (slot_idx, r)
  fetch_chains (suc fuel) ttl t it slots slot_idx r =
      let rest =
        fetch_chains fuel ttl t it slots (slot_idx + 1)
          (fetch_chain ttl t it (get_or slots slot_idx []) r) in
      if leb r.found it.chunk_size then rest else (slot_idx, r)

  -- `apc_iterator_fetch_active`: the old items are popped first.
  unfoldable pub fetch_active : (t : ℕ) → Iterator → Cmd (ℕ × Iterator)
  unfolding fetch_chains
  fetch_active t it = under_lock (λ c.
      let r =
        fetch_chains (c.num_slots - it.slot_idx) c.ttl t it c.slots it.slot_idx
          (record { found = 0; items = Stack.clear it.stack }) in
      ((r.1.found, record it { slot_idx = r.0; stack = r.1.items; stack_idx = 0 }), c))

  -- The first loop of `apc_iterator_fetch_deleted`, which skips.
  unfoldable pub skip : (count slot_idx : ℕ) → Chain → Chain
  skip count slot_idx [] = []
  skip count slot_idx (s ∷ c) =
      let rest = skip (count + 1) slot_idx c in if leb count slot_idx then rest else s ∷ c

  -- The second one.
  unfoldable pub fetch_list : Iterator → Chain → Found → Found
  fetch_list it [] r = r
  fetch_list it (s ∷ c) r =
      let rest =
        fetch_list it c (if search_match it s then push_item (ctor it.format s) r else r) in
      if ltb r.found it.chunk_size then rest else r

  -- `apc_iterator_fetch_deleted`: the old items stay.
  unfoldable pub fetch_deleted : Iterator → Cmd (ℕ × Iterator)
  unfolding skip fetch_list
  fetch_deleted it = under_lock (λ c.
      let r =
        fetch_list it (skip 0 it.slot_idx c.header.deleted_list)
          (record { found = 0; items = it.stack }) in
      (
        (r.found, record it { slot_idx = it.slot_idx + r.found; stack = r.items; stack_idx = 0 }),
        c,
      ))

  -- `iterator->fetch`
  unfoldable pub fetch_by : Listing → (t : ℕ) → Iterator → Cmd (ℕ × Iterator)
  fetch_by active t it = fetch_active t it
  fetch_by deleted t it = fetch_deleted it

  abbrev pub fetch : (t : ℕ) → Iterator → Cmd (ℕ × Iterator)
  fetch t it = fetch_by it.fetch t it

-- The loops of `apc_iterator_totals`, along one chain and over all.
unfoldable pub total_chain : Iterator → Chain → Iterator → Iterator
total_chain it [] r = r
total_chain it (s ∷ c) r = total_chain it c (
    if search_match it s
    then record r {
      size = add64 r.size s.value.mem_size;
      hits = r.hits + s.num_hits;
      count = r.count + 1;
    }
    else r)

unfoldable pub total_chains : Iterator → List Chain → Iterator → Iterator
unfolding total_chain
total_chains it [] r = r
total_chains it (l ∷ ls) r = total_chains it ls (total_chain it l r)

-- `apc_iterator_totals`
unfoldable pub totals : Iterator → Cmd Iterator
unfolding total_chains
totals it =
    under_lock (λ c. let r = total_chains it c.slots it in (record r { totals_flag = true }, c))
