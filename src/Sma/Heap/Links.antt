-- ===== src/Sma/Heap/Links.antt =====
-- Doubly linked lists in memory, as two functions from an address to the next and the previous.
use pecl_caching_apc.Base.{
  ℕ, ◌≤◌, ◌<◌, ◌≡◌, true, List, [], ◌∷◌, ◌++◌, arith, ◌==◌, if◌then◌else◌, tally, tally-append,
  Bool-cases, inl, inr, subst, sym,
}

-- A function changed at one place.
abbrev pub update : (ℕ → ℕ) → ℕ → ℕ → ℕ → ℕ
update f p v q = if q == p then v else f q

-- How often an address occurs.
abbrev pub occurs : ℕ → List ℕ → ℕ
occurs q = tally (λ x. x == q)

abbrev pub Distinct : List ℕ → Type 0
Distinct l = (q : ℕ) → occurs q l ≤ 1

-- The list of `next` pointers from `p` on, with its `previous` pointers back; the last one's
-- `next` is null.
abbrev pub Linked : (next previous : ℕ → ℕ) → (p : ℕ) → List ℕ → Type 0
Linked next previous p [] = next p ≡ 0
Linked next previous p (c ∷ cs) =
    (next p ≡ c) × (previous c ≡ p) × (0 < c) × Linked next previous c cs

-- A list depends on the pointers of its own nodes only.
pub Linked-frame :
    (next previous next' previous' : ℕ → ℕ) (p : ℕ) (cs : List ℕ)
    → ((q : ℕ) → 0 < occurs q (p ∷ cs) → next' q ≡ next q)
    → ((q : ℕ) → 0 < occurs q cs → previous' q ≡ previous q)
    → Linked next previous p cs
    → Linked next' previous' p cs
Linked-frame next previous next' previous' p [] n b h = ground (arith, n p)
Linked-frame next previous next' previous' p (c ∷ cs) n b (e, k, pos, l) = (
  ground (arith, n p, e),
  ground (arith, b c, k),
  pos,
  Linked-frame next previous next' previous' c cs (λ q i. n q (omega (arith, i)))
      (λ q i. b q (omega (arith, i))) l,
)

-- The node before a node stands before it in the list.
pub previous-occurs :
    (next previous : ℕ → ℕ) (p c : ℕ) (xs ys : List ℕ)
    → Linked next previous p (xs ++ c ∷ ys)
    → 0 < occurs (previous c) (p ∷ xs)
previous-occurs next previous p c [] ys (e, k, pos, l) = ground (arith, k)
previous-occurs next previous p c (x ∷ xs) ys (e, k, pos, l) =
    omega (arith, previous-occurs next previous x c xs ys l)

-- The node behind a node is the next of the list.
pub next-at :
    (next previous : ℕ → ℕ) (p c d : ℕ) (xs zs : List ℕ)
    → Linked next previous p (xs ++ c ∷ d ∷ zs)
    → next c ≡ d
next-at next previous p c d [] zs (e, k, pos, (e', k', pos', l)) = e'
next-at next previous p c d (x ∷ xs) zs (e, k, pos, l) = next-at next previous x c d xs zs l

-- A node taken out.
pub Linked-remove :
    (next previous : ℕ → ℕ) (p c d : ℕ) (xs zs : List ℕ)
    → Distinct (p ∷ xs ++ c ∷ d ∷ zs)
    → Linked next previous p (xs ++ c ∷ d ∷ zs)
    → Linked
        (update next (previous c) (next c))
        (update previous (next c) (previous c))
        p
        (xs ++ d ∷ zs)
Linked-remove next previous p c d [] zs distinct (e, k, pos, (e', k', pos', l)) = (
  ground (arith, k, e'),
  ground (arith, k, e'),
  pos',
  Linked-frame next previous _ _ d zs (λ q i. ground (arith, distinct q, k, i))
      (λ q i. ground (arith, distinct q, e', i)) l,
)
Linked-remove next previous p c d (x ∷ xs) zs distinct (e, k, pos, l) = (
  ground (
    arith,
    e,
    distinct p,
    previous-occurs next previous x c xs (d ∷ zs) l,
    tally-append (λ y. y == p) xs (c ∷ d ∷ zs),
  ),
  ground (
    arith,
    k,
    distinct x,
    next-at next previous x c d xs zs l,
    tally-append (λ y. y == x) xs (c ∷ d ∷ zs),
  ),
  pos,
  Linked-remove next previous x c d xs zs (λ q. omega (arith, distinct q)) l,
)

-- Another node in the place of one.
pub Linked-replace :
    (next previous : ℕ → ℕ) (p c c' d : ℕ) (xs zs : List ℕ)
    → Distinct (p ∷ xs ++ c ∷ d ∷ zs)
    → occurs c' (p ∷ xs ++ c ∷ d ∷ zs) ≡ 0
    → 0 < c'
    → Linked next previous p (xs ++ c ∷ d ∷ zs)
    → Linked
        (update (update next c' (next c)) (previous c) c')
        (update (update previous c' (previous c)) (next c) c')
        p
        (xs ++ c' ∷ d ∷ zs)
Linked-replace next previous p c c' d [] zs distinct fresh some_c (e, k, pos, (e', k', pos', l)) = (
  ground (arith, k),
  ground (arith, k, e', fresh, distinct c'),
  some_c,
  (
    ground (arith, k, e', fresh),
    ground (arith, k, e', fresh),
    pos',
    Linked-frame next previous _ _ d zs (λ q i. ground (arith, distinct q, k, i, fresh))
        (λ q i. ground (arith, distinct q, e', i, fresh)) l,
  ),
)
Linked-replace next previous p c c' d (x ∷ xs) zs distinct fresh some_c (e, k, pos, l) = (
  ground (
    arith,
    e,
    distinct p,
    fresh,
    previous-occurs next previous x c xs (d ∷ zs) l,
    tally-append (λ y. y == p) xs (c ∷ d ∷ zs),
  ),
  ground (
    arith,
    k,
    distinct x,
    fresh,
    next-at next previous x c d xs zs l,
    tally-append (λ y. y == x) xs (c ∷ d ∷ zs),
  ),
  pos,
  Linked-replace next previous x c c' d xs zs (λ q. omega (arith, distinct q))
      (omega (arith, fresh)) some_c l,
)

-- A new node in front.
pub Linked-push :
    (next previous : ℕ → ℕ) (p c d : ℕ) (zs : List ℕ)
    → Distinct (p ∷ d ∷ zs)
    → occurs c (p ∷ d ∷ zs) ≡ 0
    → 0 < c
    → Linked next previous p (d ∷ zs)
    → Linked
        (update (update next c (next p)) p c)
        (update (update previous c p) (next p) c)
        p
        (c ∷ d ∷ zs)
Linked-push next previous p c d zs distinct fresh some_c (e, k, pos, l) = (
  ground (arith),
  ground (arith, e, fresh),
  some_c,
  (
    ground (arith, e, fresh),
    ground (arith, e, fresh),
    pos,
    Linked-frame next previous _ _ d zs (λ q i. ground (arith, distinct q, i, fresh))
        (λ q i. ground (arith, distinct q, e, i, fresh)) l,
  ),
)

-- A node's pointers lead to its neighbours, so neither is null.
pub next-positive :
    (next previous : ℕ → ℕ) (p c d : ℕ) (xs zs : List ℕ)
    → Linked next previous p (xs ++ c ∷ d ∷ zs)
    → 0 < next c
next-positive next previous p c d [] zs (e, k, pos, (e', k', pos', l)) = omega arith
next-positive next previous p c d (x ∷ xs) zs (e, k, pos, l) =
    next-positive next previous x c d xs zs l

-- An address that occurs splits the list.
pub data Splits (c : ℕ) : List ℕ → Type 0 where
  splits : (xs ys : List ℕ) → Splits c (xs ++ c ∷ ys)

pub ==-≡ : (i j : ℕ) → (i == j) ≡ true → i ≡ j
==-≡ i j e = ground (arith)

Splits-cons : {c : ℕ} {l : List ℕ} (x : ℕ) → Splits c l → Splits c (x ∷ l)
Splits-cons x (splits xs ys) = splits (x ∷ xs) ys

pub occurs-Splits : (c : ℕ) (l : List ℕ) → 0 < occurs c l → Splits c l
occurs-Splits c [] h = absurd (omega arith)
occurs-Splits c (x ∷ l) h = elim (Bool-cases (x == c)) [
  | inl e ↦ subst (λ y. Splits c (y ∷ l)) (sym (==-≡ x c e)) (splits [] l)
  | inr e ↦ Splits-cons x (occurs-Splits c l (ground (arith)))
]
