-- ===== src/Cache/Start.antt =====
-- `make_prime` and `apc_cache_create`, against primality and the invariant of the cache.
use pecl_caching_apc.Base.{
  ℕ, zero, suc, ◌+◌, ◌*◌, ◌%◌, ◌≤◌, ◌<◌, ◌≡◌, ◌≢◌, refl, pos, Bool, true, not, ◌&&◌, List, [], ◌∷◌,
  some, arith, ◌==◌, ltb, leb, if◌then◌else◌, length, replicate, get_or, tally, weigh, All,
  length-replicate, ◌⊎◌, inl, inr, Bool-cases, sym, ap, word_mod,
}
use pecl_caching_apc.Cache.Types.{Chain, Cache}
use pecl_caching_apc.Cache.Find.{flat}
use pecl_caching_apc.Cache.Create.{primes, next_prime, make_prime, create}
use pecl_caching_apc.Cache.Walks.{has_key, mem_of}
use pecl_caching_apc.Cache.Histories.{misfiled}
use pecl_caching_apc.Cache.Invariant.{IsValid}

-- No number from 2 up to 141 divides.
no_divisor : ℕ → ℕ → Bool
no_divisor p zero = true
no_divisor p (suc d) = not (p % (d + 2) == 0) && no_divisor p d

no_divisor_sound : (p k d : ℕ) → no_divisor p k ≡ true → 2 ≤ d → d < k + 2 → p % d ≢ 0
unfolding no_divisor
no_divisor_sound p zero d h low high = absurd (omega arith)
no_divisor_sound p (suc k) d h low high = elim (Bool-cases (d == k + 2)) [
  | inl same ↦ let e : d ≡ k + 2 = ground arith in rw e (ground arith)
  | inr other ↦ no_divisor_sound p k d (ground arith) low (ground arith)
]

-- Prime, by trial division.
abbrev pub IsPrime : ℕ → Type 0
IsPrime p = (d : ℕ) → 2 ≤ d → d * d ≤ p → p % d ≢ 0

abbrev Checked : ℕ → Type 0
Checked p = (no_divisor p 138 ≡ true) × (p ≤ 19457) × (0 < p)

Checked-IsPrime : (p : ℕ) → Checked p → IsPrime p
Checked-IsPrime p (c, small, some_p) d low square = no_divisor_sound p 138 d c low (grind arith)

all_checked : List ℕ → Bool
all_checked [] = true
all_checked (p ∷ ps) = no_divisor p 138 && leb p 19457 && ltb 0 p && all_checked ps

all_checked_sound : (ps : List ℕ) → all_checked ps ≡ true → All Checked ps
unfolding all_checked
all_checked_sound [] h = tt
all_checked_sound (p ∷ ps) h =
    ((ground arith, ground arith, ground arith), all_checked_sound ps (ground arith))

primes-checked : all_checked primes ≡ true
unfolding all_checked no_divisor
primes-checked = refl

next_prime-All :
    (P : ℕ → Type 0) (n last : ℕ) (ks : List ℕ) → P last → All P ks → P (next_prime n last ks)
unfolding next_prime
next_prime-All P n last [] h all = h
next_prime-All P n last (k ∷ ks) h all = elim (Bool-cases (ltb n k)) [
  | inl above ↦ rw above (all.0)
  | inr below ↦ rw below (next_prime-All P n k ks (all.0) (all.1))
]

abbrev last_of : ℕ → List ℕ → ℕ
last_of last [] = last
last_of last (k ∷ ks) = last_of k ks

next_prime-above :
    (n last : ℕ) (ks : List ℕ) → last ≤ n → (n < next_prime n last ks) ⊎ (last_of last ks ≤ n)
unfolding next_prime
next_prime-above n last [] h = inr h
next_prime-above n last (k ∷ ks) h = elim (Bool-cases (ltb n k)) [
  | inl above ↦ inl (rw above (ground arith))
  | inr below ↦ rw below (next_prime-above n k ks (ground arith))
]

-- `make_prime` gives a prime, above the hint unless the hint is 19457 or more.
make_prime-IsPrime :
    (n : ℕ) → IsPrime (make_prime n) × (0 < make_prime n) × ((n < make_prime n) ⊎ (19457 ≤ n))
unfolding make_prime next_prime
make_prime-IsPrime n =
    let all = all_checked_sound primes primes-checked in
    let good = next_prime-All Checked n 257 primes (all.0) all in
    (Checked-IsPrime (make_prime n) good, good.2, next_prime-above n 0 primes (omega arith))

flat-replicate : (n : ℕ) → flat (replicate n []) ≡ []
flat-replicate zero = refl
flat-replicate (suc n) = flat-replicate n

get_or-replicate : (n j : ℕ) → get_or {A = Chain} (replicate n []) j [] ≡ []
get_or-replicate zero j = refl
get_or-replicate (suc n) zero = refl
get_or-replicate (suc n) (suc j) = get_or-replicate n j

-- `apc_cache_create`, given its shared memory, makes a valid cache, for any hint and any limits.
pub create-IsValid :
    (size_hint gc_ttl ttl now : ℕ)
    → (c : Cache) × (create size_hint gc_ttl ttl now true ≡ some c) × IsValid c
unfolding create
create-IsValid size_hint gc_ttl ttl now =
    let n = make_prime (if ltb 0 size_hint then size_hint else 2000) in
    (
      _,
      refl,
      record {
        idle = record {
          unlocked = refl;
          has_lock = refl;
          width = length-replicate n [];
          some_slots = (make_prime-IsPrime (if ltb 0 size_hint then size_hint else 2000)).1;
        };
        entries = ap (λ (c : Chain). pos (length c)) (sym (flat-replicate n));
        memory = ap (λ (c : Chain). weigh mem_of c % word_mod) (sym (flat-replicate n));
        filed = λ j. ap (tally (has_key (misfiled j n))) (get_or-replicate n j);
      },
    )
