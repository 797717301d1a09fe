-- ===== src/Cache/Counts.antt =====
-- What a release writes, chain by chain: the reference counts.
use pecl_caching_apc.Base.{
  ℕ, ℤ, decrement, ◌==◌, if◌then◌else◌, zero, suc, ◌≡◌, refl, Bool, List, [], ◌∷◌, ◌++◌, map, arith,
  length, get_or, tally, weigh, ap, ap, sym, ◌∙◌,
}
use pecl_caching_apc.Cache.Types.{KeyData, Chain}
use pecl_caching_apc.Cache.Find.{flat, has_address, release_in}
use pecl_caching_apc.Cache.Walks.{has_key, mem_of}

-- A release writes reference counts and nothing else.
pub release_in-tally :
    (p : KeyData → ℕ → Bool) (a : ℕ) (c : Chain)
    → tally (has_key p) (release_in a c) ≡ tally (has_key p) c
release_in-tally p a [] = refl
release_in-tally p a (s ∷ c) = ground (arith, release_in-tally p a c)

pub release_in-address :
    (b a : ℕ) (c : Chain) → tally (has_address b) (release_in a c) ≡ tally (has_address b) c
release_in-address b a [] = refl
release_in-address b a (s ∷ c) = ground (arith, release_in-address b a c)

-- The reference counts of an entry, slot by slot.
abbrev pub ref_counts : ℕ → Chain → List ℤ
ref_counts b [] = []
ref_counts b (s ∷ c) =
    let rest = ref_counts b c in if has_address b s then s.value.ref_count ∷ rest else rest

-- One reference less for the entry at `a`, and the count of any other entry as it is.
abbrev pub one_less : (a b : ℕ) → ℤ → ℤ
one_less a b x = if a == b then decrement x else x

pub release_in-counts :
    (b a : ℕ) (c : Chain) → ref_counts b (release_in a c) ≡ map (one_less a b) (ref_counts b c)
release_in-counts b a [] = refl
release_in-counts b a (s ∷ c) = ground (arith, release_in-counts b a c)

pub release_in-length : (a : ℕ) (c : Chain) → length (release_in a c) ≡ length c
release_in-length a [] = refl
release_in-length a (s ∷ c) = ap suc (release_in-length a c)

pub release_in-memory : (a : ℕ) (c : Chain) → weigh mem_of (release_in a c) ≡ weigh mem_of c
release_in-memory a [] = refl
release_in-memory a (s ∷ c) = ground (arith, release_in-memory a c)

pub release_in-append :
    (a : ℕ) (c d : Chain) → release_in a (c ++ d) ≡ release_in a c ++ release_in a d
release_in-append a [] d = refl
release_in-append a (s ∷ c) d = rw (release_in-append a c d)

pub release_in-flat :
    (a : ℕ) (ls : List Chain) → flat (map (release_in a) ls) ≡ release_in a (flat ls)
release_in-flat a [] = refl
release_in-flat a (l ∷ ls) =
    ap (◌++◌ (release_in a l)) (release_in-flat a ls) ∙ sym (release_in-append a l (flat ls))

pub release_in-get_or :
    (a : ℕ) (ls : List Chain) (j : ℕ)
    → get_or (map (release_in a) ls) j [] ≡ release_in a (get_or ls j [])
release_in-get_or a [] j = refl
release_in-get_or a (l ∷ ls) zero = refl
release_in-get_or a (l ∷ ls) (suc j) = release_in-get_or a ls j

pub map-length : (a : ℕ) (ls : List Chain) → length (map (release_in a) ls) ≡ length ls
map-length a [] = refl
map-length a (l ∷ ls) = ap suc (map-length a ls)
