-- ===== src/Iterator/Methods.antt =====
-- apc_iterator.c: the methods of an initialized iterator. On one that is not they return false.
use pecl_caching_apc.Base.{
  ℕ, ◌+◌, ◌-◌, Bool, true, false, not, Option, none, List, ◌==◌, if◌then◌else◌, length, take,
}
use pecl_caching_apc.Cache.Types.{Slot}
use pecl_caching_apc.Cache.Lock.{Cmd, pure, ◌>>=◌}
use pecl_caching_apc.Stack
use pecl_caching_apc.Stack.{Stack}
use pecl_caching_apc.Iterator.{Item, Iterator}
use pecl_caching_apc.Iterator.Fetch.{fetch, totals}

-- The string that `key` returns: a byte is cut off, which for a user key is its NUL.
unfoldable pub key_string : Item → List ℕ
key_string i = take (length i.key - 1) i.key

module _ (ctor : ℕ → Slot → Item) where
  -- `rewind`
  unfoldable pub rewind : (t : ℕ) → Iterator → Cmd Iterator
  rewind t it = do
    r ← fetch ctor t (record it { slot_idx = 0; stack_idx = 0; key_idx = 0 })
    pure (r.1)

  -- The items of the stack have been read.
  abbrev pub is_spent : Iterator → Bool
  is_spent it = it.stack.size == it.stack_idx

  -- The fetch that `valid`, `current` and `key` begin with.
  unfoldable pub refill : (t : ℕ) → Iterator → Cmd (ℕ × Iterator)
  refill t it = if is_spent it then fetch ctor t it else pure (1, it)

  -- `valid`
  unfoldable pub valid : (t : ℕ) → Iterator → Cmd (Bool × Iterator)
  unfolding refill
  valid t it = do r ← refill t it; pure (not (r.1.stack.size == 0), r.1)

  -- `apc_stack_get`, unless the fetch has found nothing.
  abbrev pub item_at : ℕ × Iterator → Option Item × Iterator
  item_at r = if r.0 == 0 then (none, r.1) else (Stack.get (r.1.stack) (r.1.stack_idx), r.1)

  -- `current`: the value of the item, or false.
  unfoldable pub current : (t : ℕ) → Iterator → Cmd (Option Item × Iterator)
  unfolding refill
  current t it = do r ← refill t it; pure (item_at r)

  -- `key`
  unfoldable pub key : (t : ℕ) → Iterator → Cmd (Option Item × Iterator)
  unfolding refill
  key t it = if it.stack.size == 0 then pure (none, it) else (do r ← refill t it; pure (item_at r))

-- `next`
unfoldable pub next : Iterator → Bool × Iterator
next it =
    if it.stack.size == 0
    then (false, it)
    else (true, record it { stack_idx = it.stack_idx + 1; key_idx = it.key_idx + 1 })

-- `getTotalHits`, `getTotalSize` and `getTotalCount`: the totals are computed once.
unfoldable pub with_totals : Iterator → Cmd Iterator
unfolding totals
with_totals it = if it.totals_flag then pure it else totals it

unfoldable pub get_total_hits : Iterator → Cmd (ℕ × Iterator)
unfolding with_totals
get_total_hits it = do r ← with_totals it; pure (r.hits, r)

unfoldable pub get_total_size : Iterator → Cmd (ℕ × Iterator)
unfolding with_totals
get_total_size it = do r ← with_totals it; pure (r.size, r)

unfoldable pub get_total_count : Iterator → Cmd (ℕ × Iterator)
unfolding with_totals
get_total_count it = do r ← with_totals it; pure (r.count, r)
