-- ===== src/Cache/Accounting.antt =====
-- The walks of apc_cache.c against the accounting of `Walks`, one lemma for each loop.
use pecl_caching_apc.Base.{
  ℕ, zero, suc, ◌<◌, ◌≡◌, refl, ℤ, pos, negsuc, Bool, true, not, ◌&&◌, List, [], ◌∷◌, ◌++◌, arith,
  ◌==◌, length, set, get_or, increment, is_positive, Bool-cases, inl, inr,
}
use pecl_caching_apc.Cache.Types.{Key, EntryData, Slot, Chain, Header}
use pecl_caching_apc.Cache.Slots.{
  user_match, file_match, hard_expired, remove_slot, remove_chain, prevent_garbage_collection,
  touch,
}
use pecl_caching_apc.Cache.Find.{
  flat, count_miss, count_hit, is_file, hit, find_walk, user_find_walk, delete_walk,
}
use pecl_caching_apc.Cache.Clean.{remove_all, stale, sweep, sweep_all}
use pecl_caching_apc.Cache.Walks.{
  Moved, Walked, Walked-refl, Moved-trans, Moved-append, Moved-keep, Moved-prepend, Walked-remove,
  remove_slot-Walked, Rewritten, Rewritten-Walked, Quiet-Walked,
}

increment-is_positive : (x : ℤ) → is_positive x ≡ true → is_positive (increment x) ≡ true
increment-is_positive (pos n) h = refl
increment-is_positive (negsuc n) h = cc

touch-Rewritten : (t : ℕ) (s : Slot) → Rewritten s (touch t s)
unfolding touch
touch-Rewritten t s = record {
  address = refl;
  size = refl;
  used = increment-is_positive s.value.ref_count;
  key = refl;
  hash = refl;
}

-- `prevent_garbage_collection` writes the compiled code's counts only.
prevent-Rewritten :
    (s s' : Slot)
    → Rewritten s s'
    → Rewritten s (record s' { value = prevent_garbage_collection s'.value })
unfolding prevent_garbage_collection
prevent-Rewritten s s' r = go s'.value.entry_data refl
  where
    go :
        (d : EntryData)
        → s'.value.entry_data ≡ d
        → Rewritten s (record s' { value = prevent_garbage_collection s'.value })
    go (EntryData.file f o fs cs h) e =
        rw (e, prevent_garbage_collection)
          (record { address = r.address; size = r.size; used = r.used; key = r.key; hash = r.hash })
    go (EntryData.user i v n) e = rw (e, prevent_garbage_collection) r

hit-Rewritten : (t : ℕ) (s : Slot) → Rewritten s (hit t s)
unfolding hit
hit-Rewritten t s = prevent-Rewritten s (touch t s) (touch-Rewritten t s)

module _ {gc_ttl : ℕ} where
  pub remove_chain-Walked :
      (now : ℕ) (c d : Chain) (hd : Header) → Walked gc_ttl hd (c ++ d) (remove_chain now c hd) d
  unfolding remove_chain
  remove_chain-Walked now [] d hd = Walked-refl hd d
  remove_chain-Walked now (s ∷ c) d hd =
      Walked-remove now s (remove_chain-Walked now c d (remove_slot now s hd))

  pub remove_all-Walked :
      (now : ℕ) (ls : List Chain) (hd : Header)
      → Walked gc_ttl hd (flat ls) (remove_all now ls hd).0 (flat (remove_all now ls hd).1)
  unfolding remove_all
  remove_all-Walked now [] hd = Walked-refl hd []
  remove_all-Walked now (l ∷ ls) hd =
      Moved-trans (remove_chain-Walked now l (flat ls) hd) (remove_all-Walked now ls _)

  pub sweep-Walked :
      (now ttl t : ℕ) (c : Chain) (hd : Header)
      → Walked gc_ttl hd c (sweep now ttl t c hd).0 (sweep now ttl t c hd).1
  unfolding sweep
  sweep-Walked now ttl t [] hd = Walked-refl hd []
  sweep-Walked now ttl t (s ∷ c) hd = elim (Bool-cases (stale ttl t s)) [
    | inl old ↦ rw old (Walked-remove now s (sweep-Walked now ttl t c (remove_slot now s hd)))
    | inr fresh ↦ rw fresh (Moved-keep s (sweep-Walked now ttl t c hd))
  ]

  pub sweep_all-Walked :
      (now ttl t : ℕ) (ls : List Chain) (hd : Header)
      → Walked gc_ttl hd
          (flat ls)
          (sweep_all now ttl t ls hd).0
          (flat (sweep_all now ttl t ls hd).1)
  unfolding sweep_all
  sweep_all-Walked now ttl t [] hd = Walked-refl hd []
  sweep_all-Walked now ttl t (l ∷ ls) hd =
      Moved-trans (Moved-append (flat ls) (sweep-Walked now ttl t l hd))
        (Moved-prepend _ (sweep_all-Walked now ttl t ls _))

  pub delete_walk-Walked :
      (now : ℕ) (test : Slot → Bool) (c : Chain) (hd : Header)
      → let r = delete_walk now test c hd in Walked gc_ttl hd c (r.1) (r.2)
  unfolding delete_walk
  delete_walk-Walked now test [] hd = Walked-refl hd []
  delete_walk-Walked now test (s ∷ c) hd = elim (Bool-cases (test s)) [
    | inl found ↦ rw found (remove_slot-Walked now s c hd)
    | inr other ↦ rw other (Moved-keep s (delete_walk-Walked now test c hd))
  ]

  count_miss-Walked : (hd : Header) (c : Chain) → Walked gc_ttl hd c (count_miss hd) c
  count_miss-Walked hd c =
      Quiet-Walked c
        (record { deleted = refl; freed = refl; entries = refl; memory = refl; locked = refl })

  count_hit-Walked : (hd : Header) (c : Chain) → Walked gc_ttl hd c (count_hit hd) c
  count_hit-Walked hd c =
      Quiet-Walked c
        (record { deleted = refl; freed = refl; entries = refl; memory = refl; locked = refl })

  pub user_find_walk-Walked :
      (now t h : ℕ) (strkey : List ℕ) (c : Chain) (hd : Header)
      → let r = user_find_walk now t h strkey c hd in Walked gc_ttl hd c (r.1) (r.2)
  unfolding user_find_walk
  user_find_walk-Walked now t h strkey [] hd = count_miss-Walked hd []
  user_find_walk-Walked now t h strkey (s ∷ c) hd = elim (Bool-cases (user_match h strkey s)) [
    | inr other ↦ rw other (Moved-keep s (user_find_walk-Walked now t h strkey c hd))
    | inl same ↦ elim (Bool-cases (hard_expired t s)) [
      | inl old ↦
          rw (same, old) (Moved-trans (remove_slot-Walked now s c hd) (count_miss-Walked _ c))
      | inr live ↦
          rw (same, live)
            (Moved-trans (Rewritten-Walked s (touch t s) c hd (touch-Rewritten t s))
              (count_hit-Walked hd _))
    ]
  ]

  pub find_walk-Walked :
      (now t : ℕ) (key : Key) (c : Chain) (hd : Header)
      → let r = find_walk now t key c hd in Walked gc_ttl hd c (r.1) (r.2)
  unfolding find_walk
  find_walk-Walked now t key [] hd = count_miss-Walked hd []
  find_walk-Walked now t key (s ∷ c) hd = elim (Bool-cases (file_match key s)) [
    | inr other ↦ rw other (Moved-keep s (find_walk-Walked now t key c hd))
    | inl same ↦ elim (Bool-cases (is_file key && not (s.key.mtime == key.mtime))) [
      | inl changed ↦
          rw (same, changed) (Moved-trans (remove_slot-Walked now s c hd) (count_miss-Walked _ c))
      | inr current ↦
          rw (same, current)
            (Moved-trans (Rewritten-Walked s (hit t s) c hd (hit-Rewritten t s))
              (count_hit-Walked hd _))
    ]
  ]

-- A write into one chain of the table, seen over the whole table.
pub set-Moved :
    {gc_ttl : ℕ} {added : Chain} {hd hd' : Header} {c' : Chain} (slots : List Chain) (i : ℕ)
    → i < length slots
    → Moved gc_ttl added hd (get_or slots i []) hd' c'
    → Moved gc_ttl added hd (flat slots) hd' (flat (set slots i c'))
set-Moved [] i h w = absurd (omega arith)
set-Moved (l ∷ ls) zero h w = Moved-append (flat ls) w
set-Moved (l ∷ ls) (suc i) h w = Moved-prepend l (set-Moved ls i (omega arith) w)
