-- ===== src/Sma/Protect.antt =====
-- `apc_sma_protect` and `apc_sma_unprotect` go between the two mappings of a segment.
use pecl_caching_apc.Base.{
  ℕ, zero, suc, ◌+◌, ◌-◌, ◌≤◌, ◌<◌, ◌≡◌, refl, Bool, true, false, List, [], ◌∷◌, Option, none, some,
  arith, ◌==◌, if◌then◌else◌, sub64, word_mod, ap, sym, ◌∙◌, Bool-cases, inl, inr, subst, get_elem?,
}
use pecl_caching_apc.Sma.Segments.{
  Mapping, Shared, holds, translate, translate_from, translate_last, protect, unprotect,
}

-- `q` is the image of `p`: both lie at the same place of one segment of the list.
record Located (from to : Mapping → ℕ) (z p q : ℕ) (l : List Mapping) : Type 0 where
  index : ℕ
  mp : Mapping
  at : get_elem? l index ≡ some mp
  inside : holds z (from mp) p ≡ true
  image : q ≡ to mp + sub64 p (from mp)

-- No address lies in two different segments.
abbrev pub Separate : (from : Mapping → ℕ) (z p : ℕ) → List Mapping → Type 0
Separate from z p l =
    (i j : ℕ) (x y : Mapping)
    → get_elem? l i ≡ some x
    → get_elem? l j ≡ some y
    → holds z (from x) p ≡ true
    → holds z (from y) p ≡ true
    → x ≡ y

if_some :
    (b : Bool) (x q : ℕ) (r : Option ℕ)
    → (if b then some x else r) ≡ some q
    → b ≡ false
    → r ≡ some q
if_some b x q r h e = ground (arith)

some-ℕ : {x y : ℕ} → some x ≡ some y → y ≡ x
some-ℕ e = ground (arith)

pub some-injective : {x y : Mapping} → some x ≡ some y → x ≡ y
some-injective {x} e = ap (λ o. elim o [ none ↦ x | some y ↦ y ]) e

if_taken :
    (b : Bool) (x q : ℕ) (r : Option ℕ) → (if b then some x else r) ≡ some q → b ≡ true → q ≡ x
if_taken b x q r h e = ground (arith)

module _ (from to : Mapping → ℕ) where
  translate-Located :
      (z p q : ℕ) (l : List Mapping) → translate from to z p l ≡ some q → Located from to z p q l
  unfolding translate
  translate-Located z p q [] h = ground (arith)
  translate-Located z p q (mp ∷ rest) h = elim (Bool-cases (holds z (from mp) p)) [
    | inl e ↦ record { index = 0; mp = mp; at = refl; inside = e; image = if_taken _ _ q _ h e }
    | inr e ↦
        (let r = translate-Located z p q rest (if_some _ _ q _ h e) in
          record { index = suc r.index; mp = r.mp; at = r.at; inside = r.inside; image = r.image })
  ]

  translate-only :
      (z p i : ℕ) (l : List Mapping) (mp : Mapping)
      → get_elem? l i ≡ some mp
      → holds z (from mp) p ≡ true
      → Separate from z p l
      → translate from to z p l ≡ some (to mp + sub64 p (from mp))
  unfolding translate
  translate-only z p i [] mp a h sep = ground (arith)
  translate-only z p zero (x ∷ rest) mp a h sep =
      let e = some-injective a in
      rw (ap (λ y. holds z (from y) p) e ∙ h) (ap (λ y. some (to y + sub64 p (from y))) e)
  translate-only z p (suc i) (x ∷ rest) mp a h sep = elim (Bool-cases (holds z (from x) p)) [
    | inl e ↦ rw e (ap (λ y. some (to y + sub64 p (from y))) (sep 0 (suc i) x mp refl a e h))
    | inr e ↦ rw e (translate-only z p i rest mp a h (λ k j. sep (suc k) (suc j)))
  ]

-- The mappings of the segments: the segment used last is one, the addresses of each mapping are
-- no null pointers and do not wrap, and an address is of one segment.
pub record IsMapped {S : Type 0} (sh : Shared S) : Type 0 where
  pub last : Mapping
  pub last_at : get_elem? sh.segments sh.lastseg ≡ some last
  pub nonnull : (i : ℕ) (mp : Mapping) → get_elem? sh.segments i ≡ some mp → 0 < mp.roaddr
  pub no_wrap :
      (i : ℕ) (mp : Mapping)
      → get_elem? sh.segments i ≡ some mp
      → (mp.shmaddr + sh.segsize ≤ word_mod) × (mp.roaddr + sh.segsize ≤ word_mod)
  pub separate : (p : ℕ) → Separate (λ mp. mp.roaddr) sh.segsize p sh.segments

if-true : (b : Bool) (x y : Option ℕ) → b ≡ true → (if b then x else y) ≡ x
if-true b x y e = ground (arith)

if-false : (b : Bool) (x y : Option ℕ) → b ≡ false → (if b then x else y) ≡ y
if-false b x y e = ground (arith)

nonzero : (r : ℕ) → 0 < r → (r == 0) ≡ false
nonzero r h = ground (arith)

module _ {S : Type 0} (sh : Shared S) (from to : Mapping → ℕ) (p : ℕ) (last : Mapping)
    (last_at : get_elem? sh.segments sh.lastseg ≡ some last) (ro : 0 < last.roaddr) where
  translate_last-eq : translate_last from to p sh ≡ (
      if holds sh.segsize (from last) p
      then some (to last + sub64 p (from last))
      else translate from to sh.segsize p sh.segments)
  unfolding translate_from
  translate_last-eq =
      ap (translate_from from to p sh) last_at ∙ if-false _ _ _ (nonzero last.roaddr ro)

  translate_last-Located :
      (q : ℕ) → translate_last from to p sh ≡ some q → Located from to sh.segsize p q sh.segments
  translate_last-Located q h = elim (Bool-cases (holds sh.segsize (from last) p)) [
    | inl e ↦ record {
      index = sh.lastseg;
      mp = last;
      at = last_at;
      inside = e;
      image = if_taken _ _ q _ (sym translate_last-eq ∙ h) e;
    }
    | inr e ↦
        translate-Located from to sh.segsize p q sh.segments
          (if_some _ _ q _ (sym translate_last-eq ∙ h) e)
  ]

  translate_last-only :
      (i : ℕ) (mp : Mapping)
      → get_elem? sh.segments i ≡ some mp
      → holds sh.segsize (from mp) p ≡ true
      → Separate from sh.segsize p sh.segments
      → translate_last from to p sh ≡ some (to mp + sub64 p (from mp))
  translate_last-only i mp a h sep = elim (Bool-cases (holds sh.segsize (from last) p)) [
    | inl e ↦
        translate_last-eq
        ∙ if-true _ _ _ e
        ∙ ap (λ y. some (to y + sub64 p (from y))) (sep sh.lastseg i last mp last_at a e h)
    | inr e ↦
        translate_last-eq
        ∙ if-false _ _ _ e
        ∙ translate-only from to sh.segsize p i sh.segments mp a h sep
  ]

sub64-le : (a b : ℕ) → b ≤ a → a < word_mod → sub64 a b ≡ a - b
sub64-le a b h k = omega arith

holds-bounds : (z a p : ℕ) → holds z a p ≡ true → (a ≤ p) × (sub64 p a < z)
holds-bounds z a p e = ground (arith)

bounds-holds : (z a p : ℕ) → a ≤ p → sub64 p a < z → holds z a p ≡ true
bounds-holds z a p h k = ground (arith)

image_inside :
    (z a b p : ℕ)
    → b + z ≤ word_mod
    → p < word_mod
    → holds z a p ≡ true
    → (holds z b (b + sub64 p a) ≡ true) × (a + sub64 (b + sub64 p a) b ≡ p)
image_inside z a b p h k e =
    let (low, high) = holds-bounds z a p e in
    let d = sub64-le p a low k in
    let back : sub64 (b + sub64 p a) b ≡ sub64 p a = omega arith in
    (bounds-holds z b (b + sub64 p a) (omega arith) (omega arith), omega arith)

not_null : (p q : ℕ) (r : Option ℕ) → (if p == 0 then none else r) ≡ some q → r ≡ some q
not_null p q r h = ground (arith)

-- Where the mappings are in order, `apc_sma_unprotect` takes an address back from the read-only
-- mapping into which `apc_sma_protect` has put it.
pub protect-unprotect :
    {S : Type 0} (sh : Shared S) (p q : ℕ)
    → IsMapped sh
    → p < word_mod
    → protect p sh ≡ some q
    → unprotect q sh ≡ some p
unfolding protect unprotect
protect-unprotect sh p q v word h =
    let ro = v.nonnull sh.lastseg v.last v.last_at in
    let there =
      translate_last-Located sh (λ mp. mp.shmaddr) (λ mp. mp.roaddr) p v.last v.last_at ro q
        (not_null p q _ h) in
    let mp = there.mp in
    let z = sh.segsize in
    let image =
      image_inside z mp.shmaddr mp.roaddr p ((v.no_wrap there.index mp there.at).1) word
        there.inside in
    let positive = v.nonnull there.index mp there.at in
    let inside = subst (λ x. holds z mp.roaddr x ≡ true) (sym there.image) (image.0) in
    let back =
      translate_last-only sh (λ mp. mp.roaddr) (λ mp. mp.shmaddr) q v.last v.last_at ro there.index
        mp there.at inside (v.separate q) in
    if-false _ _ _ (nonzero q (omega (arith, there.image)))
    ∙ back
    ∙ ap (λ x. some (mp.shmaddr + sub64 x mp.roaddr)) there.image
    ∙ ap some (image.1)
