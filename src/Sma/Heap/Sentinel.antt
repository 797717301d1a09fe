-- ===== src/Sma/Heap/Sentinel.antt =====
-- Lists in memory that end in a node that stays: the sentinel of a free list.
use pecl_caching_apc.Base.{ℕ, ◌<◌, ◌≡◌, List, [], ◌∷◌, ◌++◌, arith, append_assoc, subst, sym}
use pecl_caching_apc.Sma.Heap.Links.{
  update, occurs, Distinct, Linked, Linked-remove, Linked-replace, Linked-push, next-at,
  previous-occurs, next-positive,
}

abbrev pub with_end : List ℕ → ℕ → List ℕ
with_end fl l = fl ++ (l ∷ [])

module _ (next previous : ℕ → ℕ) (p c l : ℕ) (xs : List ℕ) where
  with_end-behind :
      (P : List ℕ → Type 0) (ys : List ℕ)
      → P (with_end (xs ++ c ∷ ys) l)
      → P (xs ++ c ∷ with_end ys l)
  with_end-behind P ys = subst P (append_assoc xs (c ∷ ys) (l ∷ []))

  take_right :
      (ys : List ℕ)
      → Distinct (p ∷ xs ++ c ∷ with_end ys l)
      → Linked next previous p (xs ++ c ∷ with_end ys l)
      → Linked
          (update next (previous c) (next c))
          (update previous (next c) (previous c))
          p
          (xs ++ with_end ys l)
  take_right [] = Linked-remove next previous p c l xs []
  take_right (y ∷ ys) = Linked-remove next previous p c y xs (with_end ys l)

  pub Linked-take :
      (ys : List ℕ)
      → Distinct (p ∷ with_end (xs ++ c ∷ ys) l)
      → Linked next previous p (with_end (xs ++ c ∷ ys) l)
      → Linked
          (update next (previous c) (next c))
          (update previous (next c) (previous c))
          p
          (with_end (xs ++ ys) l)
  Linked-take ys distinct h = subst (Linked _ _ p) (sym (append_assoc xs ys (l ∷ []))) (
      take_right ys (with_end-behind (λ z. Distinct (p ∷ z)) ys distinct)
        (with_end-behind (Linked next previous p) ys h))

  exchange_right :
      (c' : ℕ) (ys : List ℕ)
      → Distinct (p ∷ xs ++ c ∷ with_end ys l)
      → occurs c' (p ∷ xs ++ c ∷ with_end ys l) ≡ 0
      → 0 < c'
      → Linked next previous p (xs ++ c ∷ with_end ys l)
      → Linked
          (update (update next c' (next c)) (previous c) c')
          (update (update previous c' (previous c)) (next c) c')
          p
          (xs ++ c' ∷ with_end ys l)
  exchange_right c' [] = Linked-replace next previous p c c' l xs []
  exchange_right c' (y ∷ ys) = Linked-replace next previous p c c' y xs (with_end ys l)

  pub Linked-exchange :
      (c' : ℕ) (ys : List ℕ)
      → Distinct (p ∷ with_end (xs ++ c ∷ ys) l)
      → occurs c' (p ∷ with_end (xs ++ c ∷ ys) l) ≡ 0
      → 0 < c'
      → Linked next previous p (with_end (xs ++ c ∷ ys) l)
      → Linked
          (update (update next c' (next c)) (previous c) c')
          (update (update previous c' (previous c)) (next c) c')
          p
          (with_end (xs ++ c' ∷ ys) l)
  Linked-exchange c' ys distinct fresh some_c h =
      subst (Linked _ _ p) (sym (append_assoc xs (c' ∷ ys) (l ∷ []))) (
        exchange_right c' ys (with_end-behind (λ z. Distinct (p ∷ z)) ys distinct)
          (with_end-behind (λ z. occurs c' (p ∷ z) ≡ 0) ys fresh) some_c
          (with_end-behind (Linked next previous p) ys h))

  inner_right :
      (ys : List ℕ)
      → Linked next previous p (xs ++ c ∷ with_end ys l)
      → 0 < occurs (next c) (with_end ys l)
  inner_right [] h = ground (arith, next-at next previous p c l xs [] h)
  inner_right (y ∷ ys) h = ground (arith, next-at next previous p c y xs (with_end ys l) h)

  -- What a node points to.
  pub next-inner :
      (ys : List ℕ)
      → Linked next previous p (with_end (xs ++ c ∷ ys) l)
      → 0 < occurs (next c) (with_end ys l)
  next-inner ys h = inner_right ys (with_end-behind (Linked next previous p) ys h)

  some_right : (ys : List ℕ) → Linked next previous p (xs ++ c ∷ with_end ys l) → 0 < next c
  some_right [] h = next-positive next previous p c l xs [] h
  some_right (y ∷ ys) h = next-positive next previous p c y xs (with_end ys l) h

  pub next-some : (ys : List ℕ) → Linked next previous p (with_end (xs ++ c ∷ ys) l) → 0 < next c
  next-some ys h = some_right ys (with_end-behind (Linked next previous p) ys h)

  pub previous-inner :
      (ys : List ℕ)
      → Linked next previous p (with_end (xs ++ c ∷ ys) l)
      → 0 < occurs (previous c) (p ∷ xs)
  previous-inner ys h =
      previous-occurs next previous p c xs (with_end ys l)
        (with_end-behind (Linked next previous p) ys h)

-- The sentinel has no next.
pub next-end :
    (next previous : ℕ → ℕ) (p l : ℕ) (fl : List ℕ)
    → Linked next previous p (with_end fl l)
    → next l ≡ 0
next-end next previous p l [] (_, _, _, h) = h
next-end next previous p l (c ∷ fl) (_, _, _, h) = next-end next previous c l fl h

pub Linked-add :
    (next previous : ℕ → ℕ) (p c l : ℕ) (ys : List ℕ)
    → Distinct (p ∷ with_end ys l)
    → occurs c (p ∷ with_end ys l) ≡ 0
    → 0 < c
    → Linked next previous p (with_end ys l)
    → Linked
        (update (update next c (next p)) p c)
        (update (update previous c p) (next p) c)
        p
        (c ∷ with_end ys l)
Linked-add next previous p c l [] = Linked-push next previous p c l []
Linked-add next previous p c l (y ∷ ys) = Linked-push next previous p c y (with_end ys l)
