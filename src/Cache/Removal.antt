-- ===== src/Cache/Removal.antt =====
-- `apc_cache_user_delete` against the map of the user cache.
use pecl_caching_apc.Base.{
  ℕ, ◌%◌, ◌≤◌, ◌≡◌, Bool, false, List, [], none, get_or, tally, ap, subst, sym, ◌∙◌,
  get_or-set_self,
}
use pecl_caching_apc.Cache.Types.{Cache}
use pecl_caching_apc.Cache.Slots.{user_match}
use pecl_caching_apc.Cache.Lock.{ok, pure, and_then, on_chain}
use pecl_caching_apc.Cache.Find.{delete_walk, user_delete, user_find}
use pecl_caching_apc.Cache.Changes.{
  Returns, Returns-mono, Returns-ok, ok-injective, under_lock-ok, held,
}
use pecl_caching_apc.Cache.Histories.{user_deletes, exec}
use pecl_caching_apc.Cache.Effects.{index-lt}
use pecl_caching_apc.Cache.Invariant.{IsValid, exec-IsValid}
use pecl_caching_apc.Cache.Lookup.{
  first, live, is_some, referenced_of, delete_walk-eq, delete_walk-gone,
}
use pecl_caching_apc.Cache.UserMap.{user_slot, user_find-eq}

module _ (nhash : List ℕ → ℕ) where
  -- A deletion from a valid cache reports whether the key had a slot, and a lookup of the key right
  -- after it finds nothing, where the key had one slot at most and the cache is not busy.
  pub user_delete-user_find :
      (now : ℕ) (strkey : List ℕ) (c : Cache) (r : Bool) (c₁ : Cache) (now' t : ℕ)
      → IsValid c
      → tally (user_match (nhash strkey) strkey) (get_or c.slots (nhash strkey % c.num_slots) [])
        ≤ 1
      → user_delete nhash now strkey c ≡ ok r c₁
      → c₁.header.busy ≡ false
      → (r ≡ is_some (user_slot nhash strkey c))
        × Returns (λ found _. found ≡ none) (user_find nhash now' strkey t c₁)
  unfolding user_delete on_chain exec
  user_delete-user_find now strkey c r c₁ now' t v one done free =
      let test = user_match (nhash strkey) strkey in
      let i = nhash strkey % c.num_slots in
      let chain = get_or c.slots i [] in
      let walk = delete_walk now test in
      let ended =
        sym (under_lock-ok (λ d. on_chain (nhash strkey % d.num_slots) walk d) c v.idle.unlocked)
        ∙ done in
      let (result, same) = ok-injective ended in
      let after : IsValid c₁ =
        Returns-ok tt c₁ (exec-IsValid nhash (user_deletes now strkey) c tt v)
          (ap (λ x. and_then x (λ _. pure tt)) done) in
      let gone : user_slot nhash strkey c₁ ≡ none =
        subst (λ (d : Cache). user_slot nhash strkey d ≡ none) same
          (ap (first test) (get_or-set_self c.slots i _ [] (index-lt (nhash strkey) v.idle))
            ∙ delete_walk-gone now test chain (held c).header one) in
      (
        sym result ∙ delete_walk-eq now test chain (held c).header,
        Returns-mono (user_find-eq nhash now' strkey t c₁ after.idle free)
            λ found _ e. e ∙ ap (λ o. referenced_of (live t o)) gone,
      )
