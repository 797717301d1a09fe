-- ===== src/Cache/Changes.antt =====
-- What an operation under the lock does to a cache as a whole.
use pecl_caching_apc.Base.{
  ℕ, ◌+◌, ◌^◌, ◌≤◌, ◌<◌, ◌≡◌, ◌≢◌, refl, Bool, true, false, [], arith, ◌==◌, if◌then◌else◌, length,
  set, get_or, tally, length-set, get_or-set_self, get_or-set_ne, Bool-cases, inl, inr, ◌∙◌, sym,
  subst, subst₂, ap,
}
use pecl_caching_apc.Cache.Types.{KeyData, Chain, Header, Cache}
use pecl_caching_apc.Cache.Lock.{Run, ok, Cmd, and_then, under_lock, under_safe_lock}
use pecl_caching_apc.Cache.Find.{flat}
use pecl_caching_apc.Cache.Walks.{Moved, has_key}
use pecl_caching_apc.Cache.Accounting.{set-Moved}

-- A run that ends, in a result and a cache with `P`: no deadlock, and no dangling pointer.
pub data Returns {A : Type 0} (P : A → Cache → Type 0) : Run A → Type 0 where
  returns : {a : A} {c : Cache} → P a c → Returns P (ok a c)

pub Returns-mono :
    {A : Type 0} {P Q : A → Cache → Type 0} {r : Run A}
    → Returns P r
    → ((a : A) (c : Cache) → P a c → Q a c)
    → Returns Q r
Returns-mono (returns p) weaken = returns (weaken _ _ p)

pub ok-injective : {A : Type 0} {a b : A} {c d : Cache} → ok a c ≡ ok b d → (a ≡ b) × (c ≡ d)
ok-injective e = (cc, cc)

-- What is known of a run that has ended.
pub Returns-ok :
    {A : Type 0} {P : A → Cache → Type 0} {r : Run A} (a : A) (c : Cache)
    → Returns P r
    → r ≡ ok a c
    → P a c
Returns-ok {P} a c (returns {a = b} {c = d} p) e =
    let (same, same') = ok-injective e in subst₂ P same same' p

pub Returns-bind :
    {A B : Type 0} {P : A → Cache → Type 0} {Q : B → Cache → Type 0} {r : Run A} {k : A → Cmd B}
    → Returns P r
    → ((a : A) (c : Cache) → P a c → Returns Q (k a c))
    → Returns Q (and_then r k)
Returns-bind (returns p) next = next _ _ p

pub if-Returns :
    {A : Type 0} {P : A → Cache → Type 0} {r r' : Run A} (b : Bool)
    → Returns P r
    → Returns P r'
    → Returns P (if b then r else r')
if-Returns true p q = p
if-Returns false p q = q

-- The slots of `added` may have come into chain `i`; any other slot may have gone.
pub record Changed (added : Chain) (i : ℕ) (c c' : Cache) : Type 0 where
  pub moved : Moved c.gc_ttl added c.header (flat c.slots) c'.header (flat c'.slots)
  pub width : length c'.slots ≡ length c.slots
  pub num_slots : c'.num_slots ≡ c.num_slots
  pub gc_ttl : c'.gc_ttl ≡ c.gc_ttl
  pub ttl : c'.ttl ≡ c.ttl
  pub has_lock : c'.has_lock ≡ c.has_lock
  -- Chain by chain no key appears but for those of the added slots in theirs.
  pub chains :
      (j : ℕ) (p : KeyData → ℕ → Bool)
      → tally (has_key p) (get_or c'.slots j [])
        ≤ (if i == j then tally (has_key p) added else 0) + tally (has_key p) (get_or c.slots j [])

-- A walk of one chain, with a header written around it.
pub set-Changed :
    (added : Chain) (i : ℕ) (c : Cache) (hd' : Header) (l : Chain)
    → i < length c.slots
    → Moved c.gc_ttl added c.header (get_or c.slots i []) hd' l
    → Changed added i c (record c { header = hd'; slots = set c.slots i l })
set-Changed added i c hd' l h w = record {
  moved = set-Moved c.slots i h w;
  width = length-set c.slots i l;
  num_slots = refl;
  gc_ttl = refl;
  ttl = refl;
  has_lock = refl;
  chains = λ j p. elim (Bool-cases (i == j)) [
    | inl same ↦
        let e : i ≡ j = ground arith in rw (same, ← e, get_or-set_self c.slots i l [] h) (w.fewer p)
    | inr other ↦
        let e : i ≢ j = ground arith in rw (other, get_or-set_ne c.slots i j l [] e) (omega arith)
  ];
}

abbrev pub held : Cache → Cache
held c = record c { header = let hd = c.header in record hd { locked = true }; has_lock = 1 }

abbrev pub given_back : Cache → Cache
given_back c = record c { header = let hd = c.header in record hd { locked = false }; has_lock = 0 }

-- A lock that is free is taken and given back.
pub under_lock-ok :
    {A : Type 0} (f : Cache → A × Cache) (c : Cache)
    → c.header.locked ≡ false
    → under_lock f c ≡ ok (f (held c)).0 (given_back (f (held c)).1)
unfolding under_lock
under_lock-ok f c unlocked = ground arith

pub under_lock-Changed :
    {A : Type 0} (f : Cache → A × Cache) (added : Chain) (i : ℕ) (c : Cache)
    → c.header.locked ≡ false
    → c.has_lock ≡ 0
    → Changed added i (held c) (f (held c)).1
    → Returns (λ a c'. (a ≡ (f (held c)).0) × Changed added i c c') (under_lock f c)
under_lock-Changed f added i c unlocked none_held ch =
    subst (Returns _) (sym (under_lock-ok f c unlocked)) (
      returns (
        refl,
        record {
          moved = record {
            total = ch.moved.total;
            entries = ch.moved.entries;
            memory = ch.moved.memory;
            pinned = ch.moved.pinned;
            fewer = ch.moved.fewer;
            locked = sym unlocked;
          };
          width = ch.width;
          num_slots = ch.num_slots;
          gc_ttl = ch.gc_ttl;
          ttl = ch.ttl;
          has_lock = sym none_held;
          chains = ch.chains;
        },
      ))

-- A safe section outside any other takes the lock, once.
pub under_safe_lock-ok :
    {A : Type 0} (f : Cache → A × Cache) (c : Cache)
    → c.header.locked ≡ false
    → c.has_lock ≡ 0
    → (f (held c)).1.has_lock ≡ 1
    → under_safe_lock f c ≡ ok (f (held c)).0 (given_back (f (held c)).1)
unfolding under_safe_lock
under_safe_lock-ok f c unlocked none_held kept = ground arith

-- A safe section inside another, at any depth that the 32-bit counter holds, runs to its end
-- without waiting for the lock and leaves the depth as it was, whether the lock is taken or not,
-- if its own code leaves the depth alone.
under_safe_lock-nested :
    {A : Type 0} (f : Cache → A × Cache) (c : Cache) (depth : ℕ)
    → c.has_lock ≡ depth + 1
    → depth + 3 ≤ 2 ^ 32
    → (f (record c { has_lock = depth + 2 })).1.has_lock ≡ depth + 2
    → let r = f (record c { has_lock = depth + 2 }) in
      let d = r.1 in under_safe_lock f c ≡ ok (r.0) (record d { has_lock = depth + 1 })
unfolding under_safe_lock
under_safe_lock-nested f c depth outer small kept = ground arith

-- A section behind a test, where the test lets it through.
pub free_section-ok :
    {A : Type 0} (f : Cache → A × Cache) (refused : A) (c : Cache) {b : Bool}
    → b ≡ false
    → c.header.locked ≡ false
    → (if b then ok refused c else under_lock f c) ≡ ok (f (held c)).0 (given_back (f (held c)).1)
free_section-ok f refused c through unlocked =
    ap (λ x. if x then ok refused c else under_lock f c) through ∙ under_lock-ok f c unlocked
