-- ===== src/Cache/Taken.antt =====
-- The reference that `apc_cache_user_find` takes to the entry that it returns.
use pecl_caching_apc.Base.{
  ℕ, ℤ, increment, ◌⊎◌, pos, negsuc, false, zero, suc, ◌≤◌, ◌<◌, ◌≡◌, refl, Bool, true, List, [],
  ◌∷◌, some, arith, length, get_or, set, tally, is_positive, sym, ◌∙◌, inl, inr, ==_refl,
  tally-append,
}
use pecl_caching_apc.Cache.Types.{Entry, Slot, Chain, Header}
use pecl_caching_apc.Cache.Slots.{user_match}
use pecl_caching_apc.Cache.Lookup.{first, live, referenced_of, touched_of-eq, user_find_walk-eq}
use pecl_caching_apc.Cache.Find.{flat, has_address, user_find_walk}
use pecl_caching_apc.Cache.Walks.{in_use}

pub in_use-le : (a : ℕ) (c : Chain) → tally (in_use a) c ≤ tally (has_address a) c
in_use-le a [] = omega arith
in_use-le a (s ∷ c) = ground (arith, in_use-le a c)

-- The entry that `apc_cache_user_find` returns stands in the chain, in use.
-- The count of a slot has fallen below 0.
abbrev pub overdrawn : Slot → Bool
overdrawn s = elim s.value.ref_count [ pos n ↦ false | negsuc n ↦ true ]

pub increment-used : (x : ℤ) → (is_positive (increment x) ≡ true) ⊎ ((n : ℕ) × (x ≡ negsuc n))
increment-used (pos n) = inl refl
increment-used (negsuc n) = inr (n, refl)

pub first-used :
    (t : ℕ) (test : Slot → Bool) (c : Chain) (e : Entry)
    → tally overdrawn c ≡ 0
    → referenced_of (live t (first test c)) ≡ some e
    → is_positive e.ref_count ≡ true
first-used t test [] e sound found = cc
first-used t test (s ∷ c) e sound found =
    ground (arith, increment-used s.value.ref_count, first-used t test c e)

-- What a lookup returns has the reference that the lookup took.
pub user_find_walk-used :
    (now t h : ℕ) (strkey : List ℕ) (c : Chain) (hd : Header) (e : Entry)
    → tally overdrawn c ≡ 0
    → (user_find_walk now t h strkey c hd).0 ≡ some e
    → is_positive e.ref_count ≡ true
unfolding user_find_walk
user_find_walk-used now t h strkey c hd e sound found =
    first-used t (user_match h strkey) c e sound (
      sym (touched_of-eq t (live t (first (user_match h strkey) c)))
      ∙ sym (user_find_walk-eq now t h strkey c hd)
      ∙ found)

pub user_find_walk-pins :
    (now t h : ℕ) (strkey : List ℕ) (c : Chain) (hd : Header) (e : Entry)
    → let r = user_find_walk now t h strkey c hd in
      r.0 ≡ some e → is_positive e.ref_count ≡ true → 0 < tally (in_use e.address) (r.2)
unfolding user_find_walk
user_find_walk-pins now t h strkey [] hd e found used = cc
user_find_walk-pins now t h strkey (s ∷ c) hd e found used =
    ground (arith, user_find_walk-pins now t h strkey c hd e, ==_refl e.address)

pub tally-set-le :
    (p : Slot → Bool) (slots : List Chain) (i : ℕ) (l : Chain)
    → i < length slots
    → tally p l ≤ tally p (flat (set slots i l))
tally-set-le p [] i l h = absurd (omega arith)
tally-set-le p (k ∷ slots) zero l h = omega (arith, tally-append p l (flat slots))
tally-set-le p (k ∷ slots) (suc i) l h =
    omega (arith, tally-append p k (flat (set slots i l)), tally-set-le p slots i l)

pub tally-get_or-le :
    (p : Slot → Bool) (slots : List Chain) (i : ℕ)
    → tally p (get_or slots i []) ≤ tally p (flat slots)
tally-get_or-le p [] i = omega arith
tally-get_or-le p (k ∷ slots) zero = omega (arith, tally-append p k (flat slots))
tally-get_or-le p (k ∷ slots) (suc i) =
    omega (arith, tally-append p k (flat slots), tally-get_or-le p slots i)
