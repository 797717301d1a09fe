-- ===== src/Upload/Text.antt =====
-- The functions of the C library on strings that the upload progress calls, and their laws.
use pecl_caching_apc.Base.{
  ℕ, zero, suc, ◌+◌, ◌≤◌, ◌<◌, ◌≡◌, ◌≢◌, refl, ap, Bool, true, false, ◌&&◌, List, [], ◌∷◌, ◌++◌,
  arith, ltb, if◌then◌else◌, length, take, ◌==◌, All, ◌∙◌,
}

-- The bytes of a string written over the first ones of an array.
abbrev pub overlay : List ℕ → List ℕ → List ℕ
overlay [] ys = []
overlay (x ∷ xs) [] = x ∷ xs
overlay (x ∷ xs) (y ∷ ys) = y ∷ overlay xs ys

-- `strlcpy(dst, src, size)`, the source without its NUL.
unfoldable pub strlcpy : (dst src : List ℕ) (size : ℕ) → List ℕ
strlcpy dst src zero = dst
strlcpy dst src (suc n) = overlay dst (take n src ++ 0 ∷ [])

-- `strlcat(dst, src, size)`: without a NUL in the first `size` bytes nothing is written.
unfoldable pub strlcat : (dst src : List ℕ) (size : ℕ) → List ℕ
strlcat dst src zero = dst
strlcat [] src (suc n) = []
strlcat (x ∷ xs) src (suc n) =
    let rest = strlcat xs src n in
    if x == 0 then overlay (x ∷ xs) (take n src ++ 0 ∷ []) else x ∷ rest

-- `tolower` in the C locale.
abbrev lower : ℕ → ℕ
lower c = if ltb 64 c && ltb c 91 then c + 32 else c

-- `!strncasecmp(a, b, strlen(b))`
unfoldable pub starts_with : (a b : List ℕ) → Bool
starts_with a [] = true
starts_with [] (y ∷ b) = false
starts_with (x ∷ a) (y ∷ b) = lower x == lower y && starts_with a b

pub length-overlay : (xs ys : List ℕ) → length (overlay xs ys) ≡ length xs
length-overlay [] ys = refl
length-overlay (x ∷ xs) [] = refl
length-overlay (x ∷ xs) (y ∷ ys) = ap suc (length-overlay xs ys)

strlcat-length_step :
    (b : Bool) (x : ℕ) (xs ys zs : List ℕ)
    → length zs ≡ length xs
    → length (if b then overlay (x ∷ xs) ys else x ∷ zs) ≡ suc (length xs)
strlcat-length_step true x xs ys zs e = length-overlay (x ∷ xs) ys
strlcat-length_step false x xs ys zs e = ap suc e

pub length-strlcat : (dst src : List ℕ) (size : ℕ) → length (strlcat dst src size) ≡ length dst
unfolding strlcat
length-strlcat dst src zero = refl
length-strlcat [] src (suc n) = refl
length-strlcat (x ∷ xs) src (suc n) =
    strlcat-length_step (x == 0) x xs (take n src ++ 0 ∷ []) (strlcat xs src n)
      (length-strlcat xs src n)

-- What an array holds as a string is its first bytes, up to and with the NUL.
take-overlay : (xs ys : List ℕ) → length ys ≤ length xs → take (length ys) (overlay xs ys) ≡ ys
take-overlay [] [] h = refl
take-overlay [] (y ∷ ys) h = absurd (omega arith)
take-overlay (x ∷ xs) [] h = refl
take-overlay (x ∷ xs) (y ∷ ys) h = ap (λ l. y ∷ l) (take-overlay xs ys (omega arith))

-- An array begins with a string and its NUL.
abbrev pub Holds : List ℕ → List ℕ → Type 0
Holds [] s = ⊥
Holds (x ∷ xs) [] = x ≡ 0
Holds (x ∷ xs) (c ∷ s) = (x ≡ c) × (c ≢ 0) × Holds xs s

pub Holds-take : (n : ℕ) (xs s : List ℕ) → n ≡ length s + 1 → Holds xs s → take n xs ≡ s ++ 0 ∷ []
Holds-take zero xs s k h = absurd (omega arith)
Holds-take (suc n) [] s k h = absurd h
Holds-take (suc zero) (x ∷ xs) [] k h = ap (λ y. y ∷ []) h
Holds-take (suc (suc n)) (x ∷ xs) [] k h = absurd (omega arith)
Holds-take (suc n) (x ∷ xs) (c ∷ s) k (e, m, h) =
    ap (λ y. y ∷ take n xs) e ∙ ap (λ l. c ∷ l) (Holds-take n xs s (omega arith) h)

-- A string without a NUL, written with its NUL over an array that has the room.
overlay-Holds :
    (n : ℕ) (xs src : List ℕ)
    → All (λ c. c ≢ 0) src
    → length src ≤ n
    → length src < length xs
    → Holds (overlay xs (take n src ++ 0 ∷ [])) src
overlay-Holds n [] src a h k = absurd (omega arith)
overlay-Holds zero (x ∷ xs) [] a h k = refl
overlay-Holds (suc n) (x ∷ xs) [] a h k = refl
overlay-Holds zero (x ∷ xs) (c ∷ src) a h k = absurd (omega arith)
overlay-Holds (suc n) (x ∷ xs) (c ∷ src) (a, b) h k =
    (refl, a, overlay-Holds n xs src b (omega arith) (omega arith))

eq_lem : (x : ℕ) → x ≡ 0 → (x == 0) ≡ true
eq_lem x h = ground arith

ne_lem : (x c : ℕ) → x ≡ c → c ≢ 0 → (x == 0) ≡ false
ne_lem x c e m = ground arith

pub strlcat-Holds :
    (xs s src : List ℕ) (n : ℕ)
    → Holds xs s
    → All (λ c. c ≢ 0) src
    → length s + length src < n
    → n ≤ length xs
    → Holds (strlcat xs src n) (s ++ src)
unfolding strlcat
strlcat-Holds [] s src n h a k l = absurd h
strlcat-Holds (x ∷ xs) s src zero h a k l = absurd (omega arith)
strlcat-Holds (x ∷ xs) [] src (suc n) h a k l =
    let e : (x == 0) ≡ true = eq_lem x h in
    rw (e) (overlay-Holds n (x ∷ xs) src a (omega arith) (omega arith))
strlcat-Holds (x ∷ xs) (c ∷ s) src (suc n) (e, m, h) a k l =
    let f : (x == 0) ≡ false = ne_lem x c e m in
    rw (f) (e, m, strlcat-Holds xs s src n h a (omega arith) (omega arith))
