-- ===== src/Cache/Lookup.antt =====
-- The chains of the user cache as a map, read by the first slot of a key.
use pecl_caching_apc.Base.{
  ℕ, ◌≤◌, ◌≡◌, refl, Bool, true, false, ◌&&◌, List, [], ◌∷◌, Option, none, some, arith,
  if◌then◌else◌, length, tally, increment,
}
use pecl_caching_apc.Cache.Types.{Key, Entry, Slot, Chain, Header}
use pecl_caching_apc.Cache.Slots.{mem_eq, user_match, hard_expired, remove_slot, touch}
use pecl_caching_apc.Cache.Insert.{kept, inserted, placed, key_text, user_insert_walk}
use pecl_caching_apc.Cache.Find.{user_find_walk, user_exists_walk, delete_walk}

abbrev pub first : (Slot → Bool) → Chain → Option Slot
first test [] = none
first test (s ∷ c) = if test s then some s else first test c

-- What a user key stands for at time `t`: its first slot, unless past its hard limit.
abbrev pub live : ℕ → Option Slot → Option Slot
live t none = none
live t (some s) = if hard_expired t s then none else some s

abbrev pub is_some {ℓ} : {A : Type ℓ} → Option A → Bool
is_some none = false
is_some (some a) = true

abbrev pub value_of : Option Slot → Option Entry
value_of none = none
value_of (some s) = some s.value

abbrev pub touched_of : ℕ → Option Slot → Option Entry
touched_of t none = none
touched_of t (some s) = some (touch t s).value

-- The entry of a slot, with one more reference to it.
abbrev pub referenced_of : Option Slot → Option Entry
referenced_of none = none
referenced_of (some s) = let e = s.value in some (record e { ref_count = increment e.ref_count })

pub touched_of-eq : (t : ℕ) (o : Option Slot) → touched_of t o ≡ referenced_of o
unfolding touch
touched_of-eq t none = refl
touched_of-eq t (some s) = refl

pub user_exists_walk-eq :
    (t h : ℕ) (strkey : List ℕ) (c : Chain)
    → user_exists_walk t h strkey c ≡ value_of (live t (first (user_match h strkey) c))
unfolding user_exists_walk
user_exists_walk-eq t h strkey [] = refl
user_exists_walk-eq t h strkey (s ∷ c) = ground (arith, user_exists_walk-eq t h strkey c)

pub user_find_walk-eq :
    (now t h : ℕ) (strkey : List ℕ) (c : Chain) (hd : Header)
    → (user_find_walk now t h strkey c hd).0 ≡ touched_of t (live t (first (user_match h strkey) c))
unfolding user_find_walk
user_find_walk-eq now t h strkey [] hd = refl
user_find_walk-eq now t h strkey (s ∷ c) hd = ground (arith, user_find_walk-eq now t h strkey c hd)

pub delete_walk-eq :
    (now : ℕ) (test : Slot → Bool) (c : Chain) (hd : Header)
    → (delete_walk now test c hd).0 ≡ is_some (first test c)
unfolding delete_walk
delete_walk-eq now test [] hd = refl
delete_walk-eq now test (s ∷ c) hd = ground (arith, delete_walk-eq now test c hd)

first-none : (test : Slot → Bool) (c : Chain) → tally test c ≡ 0 → first test c ≡ none
first-none test [] h = refl
first-none test (s ∷ c) h = ground (arith, first-none test c)

-- Where one slot of a chain at most passes the test of a deletion, none does after it.
pub delete_walk-gone :
    (now : ℕ) (test : Slot → Bool) (c : Chain) (hd : Header)
    → tally test c ≤ 1
    → first test (delete_walk now test c hd).2 ≡ none
unfolding delete_walk
delete_walk-gone now test [] hd h = refl
delete_walk-gone now test (s ∷ c) hd h =
    ground (arith, delete_walk-gone now test c hd, first-none test c)

-- An insert is refused only if it is exclusive and the key is live, and else it makes its slot.
pub user_insert_walk-eq :
    (now ttl t : ℕ) (exclusive : Bool) (key : Key) (new : Option Slot) (c : Chain) (hd : Header)
    → (user_insert_walk now ttl t exclusive key new c hd).0 ≡ (
        if exclusive && is_some (live t (first (user_match key.h (key_text key)) c))
        then kept
        else placed new)
unfolding user_insert_walk
user_insert_walk-eq now ttl t exclusive key new [] hd = ground arith
user_insert_walk-eq now ttl t exclusive key new (s ∷ c) hd = ground (
  arith,
  user_insert_walk-eq now ttl t exclusive key new c hd,
  user_insert_walk-eq now ttl t exclusive key new c (remove_slot now s hd),
)

-- The slot of an insert is the first of its key from then on.
pub user_insert_walk-first :
    (now ttl t : ℕ) (exclusive : Bool) (key : Key) (new : Slot) (c : Chain) (hd : Header)
    → user_match key.h (key_text key) new ≡ true
    → (user_insert_walk now ttl t exclusive key (some new) c hd).0 ≡ inserted
    → first
        (user_match key.h (key_text key))
        (user_insert_walk now ttl t exclusive key (some new) c hd).2
      ≡ some new
unfolding user_insert_walk
user_insert_walk-first now ttl t exclusive key new [] hd match done = ground arith
user_insert_walk-first now ttl t exclusive key new (s ∷ c) hd match done = ground (
  arith,
  user_insert_walk-first now ttl t exclusive key new c hd match,
  user_insert_walk-first now ttl t exclusive key new c (remove_slot now s hd) match,
)

pub mem_eq_refl : (a : List ℕ) → mem_eq (length a) a a ≡ true
mem_eq_refl [] = refl
mem_eq_refl (x ∷ a) = ground (arith, mem_eq_refl a)
