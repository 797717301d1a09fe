-- ===== src/Cache/Release.antt =====
-- `apc_cache_release`, and what a client may rely on between a lookup and the release.
use pecl_caching_apc.Base.{
  ℕ, ◌+◌, ◌%◌, ◌<◌, ◌≡◌, refl, true, List, [], none, some, map, arith, get_or, tally, ltb, ap, ap,
  subst, sym, ◌∙◌, All, Bool-cases, inl, inr,
}
use pecl_caching_apc.Cache.Types.{Entry, Cache}
use pecl_caching_apc.Cache.Lock.{ok, pure, and_then, on_chain}
use pecl_caching_apc.Cache.Find.{
  flat, has_address, release, release_locked, user_find, user_find_walk,
}
use pecl_caching_apc.Cache.Counts.{
  release_in-tally, release_in-address, ref_counts, one_less, release_in-counts, release_in-length,
  release_in-memory, release_in-flat, release_in-get_or, map-length,
}
use pecl_caching_apc.Cache.Walks.{owned, pins, in_use}
use pecl_caching_apc.Cache.Changes.{
  Returns, returns, Returns-mono, Returns-bind, Returns-ok, ok-injective, free_section-ok, held,
  given_back, under_safe_lock-ok,
}
use pecl_caching_apc.Cache.Histories.{Call, user_finds, exec, exec_all, misfiled, IsLegal}
use pecl_caching_apc.Cache.Taken.{
  in_use-le, overdrawn, user_find_walk-used, user_find_walk-pins, tally-set-le, tally-get_or-le,
}
use pecl_caching_apc.Cache.Effects.{index-lt}
use pecl_caching_apc.Cache.Invariant.{IsValid, Later, exec-Later, exec_all-Later}

released-IsValid :
    (a : ℕ) (c : Cache) → IsValid c → IsValid (given_back (release_locked a (held c)).1)
unfolding release_locked
released-IsValid a c v = record {
  idle = record {
    unlocked = refl;
    has_lock = refl;
    width = map-length a c.slots ∙ v.idle.width;
    some_slots = v.idle.some_slots;
  };
  entries = rw (release_in-flat a c.slots, release_in-length a (flat c.slots)) v.entries;
  memory = rw (release_in-flat a c.slots, release_in-memory a (flat c.slots)) v.memory;
  filed = λ j.
      rw (release_in-get_or a c.slots j, release_in-tally (misfiled j c.num_slots) a) (v.filed j);
}

release_locked-has_lock : (a : ℕ) (c : Cache) → (release_locked a c).1.has_lock ≡ c.has_lock
unfolding release_locked
release_locked-has_lock a c = refl

release_locked-table :
    (a : ℕ) (c : Cache) (b : ℕ)
    → ref_counts b (flat (release_locked a (held c)).1.slots)
      ≡ map (one_less a b) (ref_counts b (flat c.slots))
unfolding release_locked
release_locked-table a c b =
    ap (ref_counts b) (release_in-flat a c.slots) ∙ release_in-counts b a (flat c.slots)

release_locked-waiting :
    (a : ℕ) (c : Cache) (b : ℕ)
    → ref_counts b (release_locked a (held c)).1.header.deleted_list
      ≡ map (one_less a b) (ref_counts b c.header.deleted_list)
unfolding release_locked
release_locked-waiting a c b = release_in-counts b a c.header.deleted_list

release_locked-owned :
    (a : ℕ) (c : Cache) (b : ℕ)
    → let c' = given_back (release_locked a (held c)).1 in
      owned b c'.header (flat c'.slots) ≡ owned b c.header (flat c.slots)
unfolding release_locked
release_locked-owned a c b = rw (release_in-flat a c.slots) (
    omega
      (arith, release_in-address b a (flat c.slots), release_in-address b a c.header.deleted_list))

-- Releasing an entry that stands in the table or on the pending list of a valid cache ends, in a
-- valid cache where every entry stands in as many slots as before. In the table as on the pending
-- list the reference counts of the released entry are one less, and those of any other entry are
-- what they were.
pub release-IsValid :
    (a : ℕ) (c : Cache)
    → IsValid c
    → 0 < tally (has_address a) (flat c.slots) + tally (has_address a) c.header.deleted_list
    → Returns
        (λ _ c'.
          IsValid c'
          × ((b : ℕ)
              → (owned b c'.header (flat c'.slots) ≡ owned b c.header (flat c.slots))
                × (ref_counts b (flat c'.slots) ≡ map (one_less a b) (ref_counts b (flat c.slots)))
                × (ref_counts b c'.header.deleted_list
                    ≡ map (one_less a b) (ref_counts b c.header.deleted_list))))
        (release a c)
unfolding release
release-IsValid a c v here =
    let live : ltb 0
          (tally (has_address a) (flat c.slots) + tally (has_address a) c.header.deleted_list)
        ≡ true =
      ground arith in
    rw live (
      subst (Returns _)
        (sym (
          under_safe_lock-ok (release_locked a) c v.idle.unlocked v.idle.has_lock
            (release_locked-has_lock a (held c))))
        (returns (
          released-IsValid a c v,
          λ b. (
            release_locked-owned a c b,
            release_locked-table a c b,
            release_locked-waiting a c b,
          ),
        )))

module _ (nhash : List ℕ → ℕ) where
  -- The entry that a lookup found is in use from then on.
  user_find-pins :
      (now : ℕ) (strkey : List ℕ) (t : ℕ) (c c₁ : Cache) (e : Entry)
      → IsValid c
      → tally overdrawn (flat c.slots) ≡ 0
      → user_find nhash now strkey t c ≡ ok (some e) c₁
      → 0 < pins e.address c₁.header (flat c₁.slots)
  unfolding user_find on_chain
  user_find-pins now strkey t c c₁ e v sound found = elim (Bool-cases c.header.busy) [
    | inl busy ↦ cc
    | inr free ↦
        let i = nhash strkey % c.num_slots in
        let walk = user_find_walk now t (nhash strkey) strkey in
        let ended = sym (free_section-ok _ none c free v.idle.unlocked) ∙ found in
        let (r, same) = ok-injective ended in
        let few = tally-get_or-le overdrawn c.slots i in
        let used = user_find_walk-used now t (nhash strkey) strkey _ _ e (omega arith) r in
        let live = user_find_walk-pins now t (nhash strkey) strkey _ _ e r used in
        subst (λ (d : Cache). 0 < pins e.address d.header (flat d.slots)) same
          (omega (
            arith,
            live,
            tally-set-le (in_use e.address) c.slots i (walk (get_or c.slots i []) (held c).header).2
                (index-lt (nhash strkey) v.idle),
          ))
  ]

  -- In a valid cache without a limit on the pending time, where no reference count in the table has
  -- fallen below 0, the entry that `apc_cache_user_find` returned can be released after any number
  -- of legal calls other than releases: the lookup has taken a reference, and deletions,
  -- replacements, clears and expunges between the two do not free what has one.
  pub user_find-release :
      (now : ℕ) (strkey : List ℕ) (t : ℕ) (calls : List Call) (c c₁ : Cache) (e : Entry)
      → IsValid c
      → c.gc_ttl ≡ 0
      → tally overdrawn (flat c.slots) ≡ 0
      → user_find nhash now strkey t c ≡ ok (some e) c₁
      → All IsLegal calls
      → Returns (λ _. IsValid) (and_then (exec_all nhash calls c₁) (λ _. release e.address))
  unfolding exec
  user_find-release now strkey t calls c c₁ e v forever sound found legal =
      Returns-bind (exec_all-Later nhash calls c₁ legal after.valid) λ _ c₂ l.
        let pinned = l.pinned (after.gc_ttl ∙ forever) e.address in
        let live = user_find-pins now strkey t c c₁ e v sound found in
        Returns-mono
          (release-IsValid e.address c₂ l.valid (
            omega (
              arith,
              pinned,
              live,
              in_use-le e.address (flat c₂.slots),
              in_use-le e.address c₂.header.deleted_list,
            )))
          λ _ c₃ p. p.0
    where
      after : Later c c₁
      after =
          Returns-ok tt c₁ (exec-Later nhash (user_finds now strkey t) c tt v)
            (ap (λ r. and_then r (λ _. pure tt)) found)
