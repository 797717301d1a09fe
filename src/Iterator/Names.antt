-- ===== src/Iterator/Names.antt =====
-- What names an item: the key that `APCIterator::key` returns, and the names that a search finds.
use pecl_caching_apc.Base.{
  ℕ, zero, suc, ◌+◌, ◌-◌, ◌*◌, ◌/◌, ◌%◌, ◌<◌, ◌≡◌, refl, Bool, true, false, ◌||◌, Option, some,
  List, [], ◌∷◌, ◌++◌, arith, ltb, if◌then◌else◌, length, length-append, take, ◌==◌, bytes_eq, ap,
  sym, ◌∙◌, append_assoc, tally, until_nul,
}
use pecl_caching_apc.Cache.Types.{KeyData, Slot}
use pecl_caching_apc.Iterator.{Item, Iterator}
use pecl_caching_apc.Iterator.Items.{
  digits, print_ids, item_key, key_bytes, item_ctor, filename_of, flip_hash, search_match, passes,
  second_name, named,
}
use pecl_caching_apc.Iterator.Methods.{key_string}

take-length : (xs ys : List ℕ) → take (length xs) (xs ++ ys) ≡ xs
take-length [] [] = refl
take-length [] (y ∷ ys) = refl
take-length (x ∷ xs) ys = ap (λ l. x ∷ l) (take-length xs ys)

-- Without the last byte.
take-all_but_one : (xs : List ℕ) (x : ℕ) → take (length (xs ++ x ∷ []) - 1) (xs ++ x ∷ []) ≡ xs
take-all_but_one xs x =
    let fewer : length (xs ++ x ∷ []) - 1 ≡ length xs = omega (arith, length-append xs (x ∷ [])) in
    ap (λ n. take n (xs ++ x ∷ [])) fewer ∙ take-length xs (x ∷ [])

abbrev leading : ℕ → List ℕ
leading n = if ltb n 10 then [] else digits 19 (n / 10)

-- The digits before the last one do not depend on it.
leading-last : (i j k : ℕ) → j < 10 → k < 10 → leading (10 * i + j) ≡ leading (10 * i + k)
leading-last zero j k h h' = ground (arith)
leading-last (suc i) j k h h' =
    let a : (10 * suc i + j) / 10 ≡ suc i = omega arith in
    let b : (10 * suc i + k) / 10 ≡ suc i = omega arith in
    let a' : ltb (10 * suc i + j) 10 ≡ false = ground (arith) in
    let b' : ltb (10 * suc i + k) 10 ≡ false = ground (arith) in rw (a, b, a', b') refl

-- The string that `key` returns for a file.
key_string-digits :
    (i : Item) (device inode : ℕ)
    → i.key ≡ print_ids device inode
    → key_string i ≡ digits 20 device ++ 32 ∷ leading inode
unfolding key_string print_ids digits
key_string-digits i device inode e =
    ap (λ l. take (length l - 1) l)
      (e ∙ sym (append_assoc (digits 20 device) (32 ∷ leading inode) ((48 + inode % 10) ∷ [])))
    ∙ take-all_but_one (digits 20 device ++ 32 ∷ leading inode) (48 + inode % 10)

module _ (file_md5 : Bool) (make_digest : List ℕ → List ℕ) (fetch_zval : ℕ → ℕ) (format : ℕ) where
  abbrev pub item_of : Slot → Item
  item_of = item_ctor file_md5 make_digest fetch_zval format

  item_of-key :
      (s : Slot) (device inode : ℕ)
      → s.key.key_data ≡ KeyData.file device inode
      → (item_of s).key ≡ print_ids device inode
  unfolding item_ctor item_key
  item_of-key s device inode e = ap key_bytes e

  -- Two files of a device whose inodes differ in the last digit only have items with the same
  -- `key`: it is the device and the inode without its last digit.
  pub key_string-collides :
      (s s' : Slot) (device i j k : ℕ)
      → s.key.key_data ≡ KeyData.file device (10 * i + j)
      → s'.key.key_data ≡ KeyData.file device (10 * i + k)
      → j < 10
      → k < 10
      → key_string (item_of s) ≡ key_string (item_of s')
  key_string-collides s s' device i j k e e' h h' =
      key_string-digits (item_of s) device (10 * i + j) (item_of-key s device (10 * i + j) e)
      ∙ ap (λ l. digits 20 device ++ 32 ∷ l) (leading-last i j k h h')
      ∙ sym (
          key_string-digits (item_of s') device (10 * i + k)
            (item_of-key s' device (10 * i + k) e'))

-- Bytes without a NUL are none of the keys that an array gives.
bytes_eq-nul : (l name : List ℕ) → tally (λ x. x == 0) l ≡ 0 → bytes_eq l (name ++ 0 ∷ []) ≡ false
bytes_eq-nul [] [] h = refl
bytes_eq-nul [] (b ∷ name) h = refl
bytes_eq-nul (a ∷ l) [] h = ground (arith)
bytes_eq-nul (a ∷ l) (b ∷ name) h = ground (arith, bytes_eq-nul l name)

flip_hash-nul :
    (names : List (List ℕ)) (l : List ℕ) → tally (λ x. x == 0) l ≡ 0 → flip_hash names l ≡ false
flip_hash-nul [] l h = refl
flip_hash-nul (n ∷ names) l h = rw (bytes_eq-nul l n h, flip_hash-nul names l h) refl

-- A search by an array of names finds a compiled file only where the array has its device and inode,
-- printed: its filename is no key of the array, since a table's keys count their NUL. The
-- filename has no NUL inside.
pub search_match-file :
    (it : Iterator) (names : List (List ℕ)) (s : Slot) (device inode : ℕ)
    → it.search_hash ≡ some (flip_hash names)
    → s.key.key_data ≡ KeyData.file device inode
    → tally (λ x. x == 0) (filename_of s.value) ≡ 0
    → search_match it s ≡ flip_hash names (print_ids device inode ++ 0 ∷ [])
unfolding search_match
search_match-file it names s device inode e e' h =
    ap (λ o. found_by o s.key.key_data) e
    ∙ ap (λ kd. found_by (some (flip_hash names)) kd) e'
    ∙ ap (λ b. b || flip_hash names (print_ids device inode ++ 0 ∷ []))
        (flip_hash-nul names (filename_of s.value) h)
  where
    found_by : Option (List ℕ → Bool) → KeyData → Bool
    found_by o kd = second_name o kd (
        passes o (passes it.regex true (until_nul (named kd (filename_of s.value))))
          (named kd (filename_of s.value)))
