-- ===== src/Iterator/Totals.antt =====
-- The totals of an iterator.
use pecl_caching_apc.Base.{
  ◌+◌, ◌%◌, ◌<◌, ◌≡◌, refl, Bool, true, false, List, [], ◌∷◌, ◌++◌, arith, if◌then◌else◌, length,
  weigh, add64, word_mod, ap, sym, ◌∙◌,
}
use pecl_caching_apc.Cache.Types.{Slot, Chain, Cache}
use pecl_caching_apc.Cache.Find.{flat}
use pecl_caching_apc.Cache.Lock.{ok, under_lock}
use pecl_caching_apc.Cache.Changes.{under_lock-ok}
use pecl_caching_apc.Iterator.{Iterator}
use pecl_caching_apc.Iterator.Items.{search_match}
use pecl_caching_apc.Iterator.Fetch.{total_chain, total_chains, totals}
use pecl_caching_apc.Iterator.Methods.{with_totals}
use pecl_caching_apc.Iterator.Walk.{select}
use pecl_caching_apc.Iterator.Complete.{IsIdle, given_back-held}

-- The totals of some slots on top of others.
pub record IsTotal (chosen : Chain) (r r' : Iterator) : Type 0 where
  pub count : r'.count ≡ r.count + length chosen
  pub hits : r'.hits ≡ r.hits + weigh (λ (s : Slot). s.num_hits) chosen
  pub size : r'.size ≡ (r.size + weigh (λ (s : Slot). s.value.mem_size) chosen) % word_mod

module _ (it : Iterator) where
  total_chain-append :
      (xs ys : Chain) (r : Iterator)
      → total_chain it (xs ++ ys) r ≡ total_chain it ys (total_chain it xs r)
  unfolding total_chain
  total_chain-append [] ys r = refl
  total_chain-append (s ∷ xs) ys r = total_chain-append xs ys _

  total_chains-flat :
      (slots : List Chain) (r : Iterator) → total_chains it slots r ≡ total_chain it (flat slots) r
  unfolding total_chains total_chain
  total_chains-flat [] r = refl
  total_chains-flat (l ∷ ls) r =
      total_chains-flat ls (total_chain it l r) ∙ sym (total_chain-append l (flat ls) r)

  abbrev counted : Slot → Iterator → Iterator
  counted s r = record r {
    size = add64 r.size s.value.mem_size;
    hits = r.hits + s.num_hits;
    count = r.count + 1;
  }

  counted-IsTotal :
      (b : Bool) (s : Slot) (c : Chain) (r : Iterator)
      → ((q : Iterator)
          → q.size < word_mod
          → IsTotal (select (search_match it) c) q (total_chain it c q))
      → r.size < word_mod
      → IsTotal
          (if b then s ∷ select (search_match it) c else select (search_match it) c)
          r
          (total_chain it c (if b then counted s r else r))
  counted-IsTotal false s c r ih h = ih r h
  counted-IsTotal true s c r ih h =
      let later = ih (counted s r) (omega arith) in
      record {
        count = omega (arith, later.count);
        hits = omega (arith, later.hits);
        size = omega (arith, later.size);
      }

  total_chain-IsTotal :
      (c : Chain) (r : Iterator)
      → r.size < word_mod
      → IsTotal (select (search_match it) c) r (total_chain it c r)
  unfolding total_chain
  total_chain-IsTotal [] r h = record {
    count = omega arith;
    hits = omega arith;
    size = omega (arith, h);
  }
  total_chain-IsTotal (s ∷ c) r h =
      counted-IsTotal (search_match it s) s c r (total_chain-IsTotal c) h

-- The totals that the methods return are those of the slots of the table that the search matches:
-- their number, the sum of their hits and the sum of their sizes, which wraps at 2^64. Slots that
-- are past their limit count too. The totals have not been computed before, and the cache's lock is
-- free.
pub with_totals-eq :
    (it : Iterator) (c : Cache)
    → it.totals_flag ≡ false
    → it.size < word_mod
    → IsIdle c
    → (r : Iterator) × (with_totals it c ≡ ok r c)
      × IsTotal (select (search_match it) (flat c.slots)) it r
unfolding with_totals totals
with_totals-eq it c fresh word h =
    let r = total_chains it c.slots it in
    let t = total_chain-IsTotal it (flat c.slots) it word in
    (
      record r { totals_flag = true },
      ap
            (λ b.
              (if b
                  then ok it
                  else under_lock (λ d.
                    let q = total_chains it d.slots it in (record q { totals_flag = true }, d)))
                c)
            fresh
          ∙ under_lock-ok _ c h.unlocked
          ∙ ap (ok (record r { totals_flag = true })) (given_back-held c h),
      record {
        count = ap (λ (q : Iterator). q.count) (total_chains-flat it c.slots it) ∙ t.count;
        hits = ap (λ (q : Iterator). q.hits) (total_chains-flat it c.slots it) ∙ t.hits;
        size = ap (λ (q : Iterator). q.size) (total_chains-flat it c.slots it) ∙ t.size;
      },
    )
