-- ===== src/Sma/Exhaustion.antt =====
-- When `apc_sma_malloc_ex` gives up.
use pecl_caching_apc.Base.{
  ℕ, zero, suc, ◌+◌, ◌≤◌, ◌<◌, ◌≡◌, refl, Bool, true, false, List, [], ◌∷◌, Option, none, some,
  arith, ◌==◌, if◌then◌else◌, length, get_elem?, add64, ap, sym, subst, Bool-cases, inl, inr, ◌⊎◌,
}
use pecl_caching_apc.Sma
use pecl_caching_apc.Sma.{Allocation, fails, aborts, allocates}
use pecl_caching_apc.Sma.Segments.{
  Mapping, Shared, Reply, exhausted, stopped, returned, or_else, reply_of, allocate_at, allocate_in,
  try_segment, try_others, remember, attempt, malloc_ex, Callback,
}

-- No room in a segment, if there is one.
abbrev Full : (n fragment : ℕ) → Option Mapping → Type 0
Full n fragment none = Unit
Full n fragment (some mp) = Sma.allocate n fragment mp.segment ≡ fails

==-≡ : (i j : ℕ) → (i == j) ≡ true → i ≡ j
==-≡ i j e = ground (arith)

get_elem?-lt : (l : List Mapping) (i : ℕ) (mp : Mapping) → get_elem? l i ≡ some mp → i < length l
get_elem?-lt [] i mp h = absurd (ground (arith))
get_elem?-lt (x ∷ l) zero mp h = omega arith
get_elem?-lt (x ∷ l) (suc i) mp h = omega (arith, get_elem?-lt l i mp h)

module _ {S : Type 0} where
  exhausted-injective : {x y : Shared S} → exhausted x ≡ exhausted y → x ≡ y
  exhausted-injective {x} e =
      ap (λ r. elim r [ exhausted sh ↦ sh | stopped ↦ x | returned p a sh ↦ x ]) e

  or_else-exhausted :
      (r : Reply S) (f : Shared S → Reply S) (sh' : Shared S)
      → or_else r f ≡ exhausted sh'
      → (sh : Shared S) × (r ≡ exhausted sh) × (f sh ≡ exhausted sh')
  or_else-exhausted (exhausted sh) f sh' h = (sh, refl, h)
  or_else-exhausted stopped f sh' h = absurd (cc)
  or_else-exhausted (returned p allocated sh) f sh' h = absurd (cc)

  remember-exhausted :
      (i : ℕ) (r : Reply S) (sh' : Shared S) → remember i r ≡ exhausted sh' → r ≡ exhausted sh'
  remember-exhausted i (exhausted sh) sh' h = h
  remember-exhausted i stopped sh' h = h
  remember-exhausted i (returned p allocated sh) sh' h = absurd (cc)

  reply_of-exhausted :
      (i : ℕ) (mp : Mapping) (sh sh' : Shared S) (a : Allocation)
      → reply_of i mp sh a ≡ exhausted sh'
      → (sh' ≡ sh) × (a ≡ fails)
  reply_of-exhausted i mp sh sh' fails h = (sym (exhausted-injective h), refl)
  reply_of-exhausted i mp sh sh' aborts h = absurd (cc)
  reply_of-exhausted i mp sh sh' (allocates off allocated seg) h = absurd (cc)

  allocate_at-exhausted :
      (i n fragment : ℕ) (sh sh' : Shared S) (o : Option Mapping)
      → allocate_at i n fragment sh o ≡ exhausted sh'
      → (sh' ≡ sh) × Full n fragment o
  allocate_at-exhausted i n fragment sh sh' none h = absurd (cc)
  allocate_at-exhausted i n fragment sh sh' (some mp) h = reply_of-exhausted i mp sh sh' _ h

  step-exhausted :
      (b : Bool) (n fragment i : ℕ) (sh s : Shared S)
      → (i == sh.lastseg) ≡ b
      → (if b then exhausted sh else remember i (allocate_in i n fragment sh)) ≡ exhausted s
      → (s ≡ sh) × ((i ≡ sh.lastseg) ⊎ Full n fragment (get_elem? sh.segments i))
  step-exhausted true n fragment i sh s e h = (sym (exhausted-injective h), inl (ground (arith)))
  step-exhausted false n fragment i sh s e h =
      let r = allocate_at-exhausted i n fragment sh s _ (remember-exhausted i _ s h) in
      (r.0, inr (r.1))

  -- No room in the segments from `i` on, but perhaps in the last one used.
  others-exhausted :
      (n fragment count i : ℕ) (sh sh' : Shared S)
      → try_others none n fragment count i sh ≡ exhausted sh'
      → (sh' ≡ sh)
        × ((j : ℕ)
            → i ≤ j
            → j < i + count
            → (j ≡ sh.lastseg) ⊎ Full n fragment (get_elem? sh.segments j))
  unfolding try_others try_segment
  others-exhausted n fragment zero i sh sh' h =
      (sym (exhausted-injective h), λ j low high. absurd (omega arith))
  others-exhausted n fragment (suc count) i sh sh' h =
      let (s, first, rest) = or_else-exhausted _ _ sh' h in
      let (same, here) = step-exhausted (i == sh.lastseg) n fragment i sh s refl first in
      let (same', later) =
        others-exhausted n fragment count (suc i) sh sh'
          (subst (λ x. try_others none n fragment count (suc i) x ≡ exhausted sh') same rest) in
      (
        same',
        λ j low high. elim (Bool-cases (i == j)) [
          | inl e ↦
              subst (λ k. (k ≡ sh.lastseg) ⊎ Full n fragment (get_elem? sh.segments k)) (==-≡ i j e)
                here
          | inr e ↦ later j (ground (arith)) (omega arith)
        ],
      )

  attempt-exhausted :
      (n fragment : ℕ) (sh sh' : Shared S)
      → attempt none n fragment sh ≡ exhausted sh'
      → (sh' ≡ sh) × ((i : ℕ) → i < length sh.segments → Full n fragment (get_elem? sh.segments i))
  unfolding attempt try_segment
  attempt-exhausted n fragment sh sh' h =
      let (s, first, rest) = or_else-exhausted _ _ sh' h in
      let (same, last) = allocate_at-exhausted sh.lastseg n fragment sh s _ first in
      let (same', others) = others-exhausted n fragment (length sh.segments) 0 sh sh' (
        subst (λ x. try_others none n fragment (length x.segments) 0 x ≡ exhausted sh') same
          rest) in
      (
        same',
        λ i inside. elim (others i (omega arith) (omega (arith, inside))) [
          | inl e ↦ subst (λ k. Full n fragment (get_elem? sh.segments k)) (sym e) last
          | inr f ↦ f
        ],
      )

  -- Where no cache is current, `apc_sma_malloc_ex` gives up only after both caches have expunged,
  -- the file cache first and with the same size, and then in the state that they left, and only if
  -- `sma_allocate` fails in every segment of that state.
  pub malloc_ex-exhausted :
      (file_cb user_cb : Callback S) (n fragment : ℕ) (sh sh' : Shared S) (i : ℕ) (mp : Mapping)
      → malloc_ex file_cb user_cb none n fragment sh ≡ exhausted sh'
      → get_elem? (user_cb (add64 n fragment) (file_cb (add64 n fragment) sh)).segments i ≡ some mp
      → (sh' ≡ user_cb (add64 n fragment) (file_cb (add64 n fragment) sh))
        × (Sma.allocate n fragment mp.segment ≡ fails)
  unfolding malloc_ex
  malloc_ex-exhausted file_cb user_cb n fragment sh sh' i mp h at =
      let (s, first, rest) = or_else-exhausted _ _ sh' h in
      let (same, _) = attempt-exhausted n fragment sh s first in
      let after = λ (x : Shared S). user_cb (add64 n fragment) (file_cb (add64 n fragment) x) in
      let (same', full) =
        attempt-exhausted n fragment (after sh) sh'
          (subst (λ x. attempt none n fragment (after x) ≡ exhausted sh') same rest) in
      (same', subst (Full n fragment) at (full i (get_elem?-lt (after sh).segments i mp at)))
