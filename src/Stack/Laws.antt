-- ===== src/Stack/Laws.antt =====
-- apc_stack.c against a list of items, the last pushed at its end.
use pecl_caching_apc.Base.{
  ℕ, zero, suc, ◌+◌, ◌-◌, ◌≤◌, ◌<◌, ◌≡◌, refl, Option, none, some, List, [], ◌∷◌, ◌++◌, map, arith,
  length, get_or, set, take, replicate, length-append, length-set, length-replicate, ap, sym, ◌∙◌,
  inl, inr, Bool-cases, ◌==◌, ltb,
}
use native.Mathlib.Numerals.{add-one}
use pecl_caching_apc.Stack.{Stack, create, clear, grow, push, get, top, pop}

-- The array's length is its capacity, and its first `size` cells hold the items in order.
pub record Holds {ℓ} {A : Type ℓ} (s : Stack A) (items : List A) : Type ℓ where
  pub room : s.size ≤ s.capacity
  pub some_room : 0 < s.capacity
  pub array : length s.cells ≡ s.capacity
  pub count : s.size ≡ length items
  pub filled : take s.size s.cells ≡ map some items

module _ {ℓ} {A : Type ℓ} where
  take-append_short : (n : ℕ) (xs ys : List A) → n ≤ length xs → take n (xs ++ ys) ≡ take n xs
  take-append_short zero xs ys h = refl
  take-append_short (suc n) [] ys h = absurd (omega arith)
  take-append_short (suc n) (x ∷ xs) ys h = ap (◌∷◌ x) (take-append_short n xs ys (omega arith))

  take-set :
      (n : ℕ) (xs : List A) (v : A)
      → n < length xs
      → take (suc n) (set xs n v) ≡ take n xs ++ v ∷ []
  take-set n [] v h = absurd (omega arith)
  take-set zero (x ∷ xs) v h = refl
  take-set (suc n) (x ∷ xs) v h = ap (◌∷◌ x) (take-set n xs v (omega arith))

  get_or-take : (n i : ℕ) (xs : List A) (d : A) → i < n → get_or (take n xs) i d ≡ get_or xs i d
  get_or-take zero i xs d h = absurd (omega arith)
  get_or-take (suc n) i [] d h = refl
  get_or-take (suc n) zero (x ∷ xs) d h = refl
  get_or-take (suc n) (suc i) (x ∷ xs) d h = get_or-take n i xs d (omega arith)

  take-take : (n : ℕ) (xs : List A) → take n (take (suc n) xs) ≡ take n xs
  take-take zero xs = refl
  take-take (suc n) [] = refl
  take-take (suc n) (x ∷ xs) = ap (◌∷◌ x) (take-take n xs)

  take-map_append :
      (items : List A) (a : A) → take (length items) (map some (items ++ a ∷ [])) ≡ map some items
  take-map_append [] a = refl
  take-map_append (x ∷ items) a = ap (◌∷◌ (some x)) (take-map_append items a)

  get_or-map_append :
      (items : List A) (a : A) → get_or (map some (items ++ a ∷ [])) (length items) none ≡ some a
  get_or-map_append [] a = refl
  get_or-map_append (x ∷ items) a = get_or-map_append items a

  get_or-beyond :
      (items : List A) (n : ℕ) → length items ≤ n → none ≡ get_or (map some items) n none
  get_or-beyond [] n h = refl
  get_or-beyond (x ∷ items) zero h = absurd (omega arith)
  get_or-beyond (x ∷ items) (suc n) h = get_or-beyond items n (omega arith)

  map-append_one :
      (items : List A) (a : A) → map some (items ++ a ∷ []) ≡ map some items ++ some a ∷ []
  map-append_one [] a = refl
  map-append_one (x ∷ items) a = ap (◌∷◌ (some x)) (map-append_one items a)

module _ {ℓ} {A : Type ℓ} where
  pub create-Holds : (hint : ℕ) → Holds (create {A = A} hint) []
  unfolding create
  create-Holds hint = record {
    room = ground arith;
    some_room = ground arith;
    array = length-replicate _ none;
    count = refl;
    filled = refl;
  }

  pub clear-Holds : (s : Stack A) (items : List A) → Holds s items → Holds (clear s) []
  unfolding clear
  clear-Holds s items h = record {
    room = omega arith;
    some_room = h.some_room;
    array = h.array;
    count = refl;
    filled = refl;
  }

  abbrev empty_cell : Option A
  empty_cell = none

  grow-Holds :
      (s : Stack A) (items : List A)
      → Holds s items
      → Holds (grow s) items × (s.size < (grow s).capacity) × ((grow s).size ≡ s.size)
  unfolding grow
  grow-Holds s items h = elim (Bool-cases (s.size == s.capacity)) [
    | inl full ↦ rw full (
      record {
        room = omega (arith, h.room);
        some_room = omega (arith, h.some_room);
        array = omega (
          arith,
          h.array,
          length-append s.cells (replicate s.capacity none),
          length-replicate s.capacity empty_cell,
        );
        count = h.count;
        filled = take-append_short s.size s.cells _ (omega (arith, h.room, h.array)) ∙ h.filled;
      },
      ground (arith, h.some_room),
      refl,
    )
    | inr fits ↦ rw fits (h, ground (arith, h.room), refl)
  ]

  -- A push onto a stack that holds some items, which may have to grow, leaves one that holds these
  -- items with the new one at the end.
  pub push-Holds :
      (s : Stack A) (items : List A) (a : A) → Holds s items → Holds (push s a) (items ++ a ∷ [])
  unfolding push
  push-Holds s items a h =
      let (g, more, same) = grow-Holds s items h in
      let inside : (grow s).size < length (grow s).cells = omega (arith, g.array) in
      record {
        room = omega arith;
        some_room = g.some_room;
        array = length-set (grow s).cells (grow s).size (some a) ∙ g.array;
        count = omega (arith, g.count, length-append items (a ∷ []));
        filled = rw (add-one (grow s).size) (
            take-set (grow s).size (grow s).cells (some a) inside
            ∙ ap (λ xs. xs ++ some a ∷ []) g.filled
            ∙ sym (map-append_one items a));
      }

  -- The last cell of a stack that holds `items ++ a ∷ []`.
  last_cell :
      (s : Stack A) (items : List A) (a : A)
      → Holds s (items ++ a ∷ [])
      → (s.size ≡ suc (length items)) × (get_or s.cells (length items) none ≡ some a)
  last_cell s items a h =
      let n : s.size ≡ suc (length items) = omega (arith, h.count, length-append items (a ∷ [])) in
      (
        n,
        sym (get_or-take s.size (length items) s.cells none (omega arith))
            ∙ ap (λ xs. get_or xs (length items) none) h.filled
            ∙ get_or-map_append items a,
      )

  -- A pop of a stack that holds items and a last one returns that one, and leaves a stack that holds
  -- the items below it.
  pub pop-Holds :
      (s : Stack A) (items : List A) (a : A)
      → Holds s (items ++ a ∷ [])
      → (t : Stack A) × (pop s ≡ some (a, t)) × Holds t items
  unfolding pop
  pop-Holds s items a h =
      let (n, cell) = last_cell s items a h in
      let last : s.size - 1 ≡ length items = omega arith in
      (
        record s { size = s.size - 1 },
        ground (arith, cell, last),
        record {
          room = omega (arith, h.room);
          some_room = h.some_room;
          array = h.array;
          count = last;
          filled = rw last (
              sym (take-take (length items) s.cells)
              ∙ ap (take (length items)) (rw n at h.filled)
              ∙ take-map_append items a);
        },
      )

  pub pop-empty : (s : Stack A) → Holds s [] → pop s ≡ none
  unfolding pop
  pop-empty s h = ground (arith, h.count)

  pub top-eq : (s : Stack A) (items : List A) (a : A) → Holds s (items ++ a ∷ []) → top s ≡ some a
  unfolding top
  top-eq s items a h =
      let (n, cell) = last_cell s items a h in
      let last : s.size - 1 ≡ length items = omega arith in ground (arith, cell, last)

  -- On a stack that holds some items, `apc_stack_get` returns the item of the index, and fails its
  -- assertion where there is none.
  pub get-eq :
      (s : Stack A) (items : List A) (n : ℕ)
      → Holds s items
      → get s n ≡ get_or (map some items) n none
  unfolding get
  get-eq s items n h = elim (Bool-cases (ltb n s.size)) [
    | inl inside ↦ rw inside (
        sym (get_or-take s.size n s.cells none (ground arith))
        ∙ ap (λ xs. get_or xs n none) h.filled)
    | inr outside ↦ rw outside (get_or-beyond items n (ground (arith, h.count)))
  ]

  pub push-size : (s : Stack A) (a : A) → (push s a).size ≡ s.size + 1
  unfolding push grow
  push-size s a = ground (arith)
