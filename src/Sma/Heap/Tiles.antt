-- ===== src/Sma/Heap/Tiles.antt =====
-- A segment's memory as a sequence of blocks, by their sizes.
use pecl_caching_apc.Base.{
  ℕ, ◌+◌, ◌≤◌, ◌<◌, ◌≡◌, refl, List, [], ◌∷◌, ◌++◌, arith, tally-append, ◌==◌, length,
  length-append, inl, inr, Bool-cases, ap, ◌∙◌,
}
use pecl_caching_apc.Sma.Heap.Links.{occurs, ==-≡}

-- A block by its size, with its header.
pub data Tile : Type 0 where
  free used : (size : ℕ) → Tile

abbrev pub tile_size : Tile → ℕ
tile_size (free n) = n
tile_size (used n) = n

-- What the block behind a block has as `prev_size`: the size of a free block, 0 for a used one.
abbrev pub behind : Tile → ℕ
behind (free n) = n
behind (used n) = 0

-- Where a run ends.
abbrev pub end : ℕ → List Tile → ℕ
end p [] = p
end p (t ∷ ts) = end (p + tile_size t) ts

-- The `prev_size` that is due behind a run.
abbrev pub out : ℕ → List Tile → ℕ
out k [] = k
out k (t ∷ ts) = out (behind t) ts

-- The addresses of the free blocks, and of the used ones.
abbrev pub frees : ℕ → List Tile → List ℕ
frees p [] = []
frees p (free n ∷ ts) = p ∷ frees (p + n) ts
frees p (used n ∷ ts) = frees (p + n) ts

abbrev pub useds : ℕ → List Tile → List ℕ
useds p [] = []
useds p (free n ∷ ts) = useds (p + n) ts
useds p (used n ∷ ts) = p ∷ useds (p + n) ts

-- The bytes of the free blocks.
abbrev pub free_bytes : List Tile → ℕ
free_bytes [] = 0
free_bytes (t ∷ ts) = behind t + free_bytes ts

-- No free block comes first where one is just before.
abbrev pub Apart : ℕ → List Tile → Type 0
Apart k [] = Unit
Apart k (free n ∷ ts) = k ≡ 0
Apart k (used n ∷ ts) = Unit

pub end-≤ : (p : ℕ) (ts : List Tile) → p ≤ end p ts
end-≤ p [] = omega arith
end-≤ p (t ∷ ts) = omega (arith, end-≤ (p + tile_size t) ts)

pub free_bytes-≤ : (p : ℕ) (ts : List Tile) → p + free_bytes ts ≤ end p ts
free_bytes-≤ p [] = omega arith
free_bytes-≤ p (free n ∷ ts) = omega (arith, free_bytes-≤ (p + n) ts)
free_bytes-≤ p (used n ∷ ts) = omega (arith, free_bytes-≤ (p + n) ts)

pub end-append : (p : ℕ) (us vs : List Tile) → end p (us ++ vs) ≡ end (end p us) vs
end-append p [] vs = refl
end-append p (t ∷ us) vs = end-append (p + tile_size t) us vs

pub out-append : (k : ℕ) (us vs : List Tile) → out k (us ++ vs) ≡ out (out k us) vs
out-append k [] vs = refl
out-append k (t ∷ us) vs = out-append (behind t) us vs

pub frees-append :
    (p : ℕ) (us vs : List Tile) → frees p (us ++ vs) ≡ frees p us ++ frees (end p us) vs
frees-append p [] vs = refl
frees-append p (free n ∷ us) vs = ap (λ l. p ∷ l) (frees-append (p + n) us vs)
frees-append p (used n ∷ us) vs = frees-append (p + n) us vs

pub useds-append :
    (p : ℕ) (us vs : List Tile) → useds p (us ++ vs) ≡ useds p us ++ useds (end p us) vs
useds-append p [] vs = refl
useds-append p (free n ∷ us) vs = useds-append (p + n) us vs
useds-append p (used n ∷ us) vs = ap (λ l. p ∷ l) (useds-append (p + n) us vs)

pub free_bytes-append : (us vs : List Tile) → free_bytes (us ++ vs) ≡ free_bytes us + free_bytes vs
free_bytes-append [] vs = omega arith
free_bytes-append (t ∷ us) vs = omega (arith, free_bytes-append us vs)

pub occurs-append : (q : ℕ) (xs ys : List ℕ) → occurs q (xs ++ ys) ≡ occurs q xs + occurs q ys
occurs-append q xs ys = tally-append (λ x. x == q) xs ys

-- The addresses of a run in two parts.
module _ (q p : ℕ) (us vs : List Tile) where
  pub occurs-frees :
      occurs q (frees p (us ++ vs)) ≡ occurs q (frees p us) + occurs q (frees (end p us) vs)
  occurs-frees =
      ap (occurs q) (frees-append p us vs) ∙ occurs-append q (frees p us) (frees (end p us) vs)

  pub occurs-useds :
      occurs q (useds p (us ++ vs)) ≡ occurs q (useds p us) + occurs q (useds (end p us) vs)
  occurs-useds =
      ap (occurs q) (useds-append p us vs) ∙ occurs-append q (useds p us) (useds (end p us) vs)

pub length-frees :
    (p : ℕ) (us vs : List Tile)
    → length (frees p (us ++ vs)) ≡ length (frees p us) + length (frees (end p us) vs)
length-frees p us vs =
    ap length (frees-append p us vs) ∙ length-append (frees p us) (frees (end p us) vs)

-- How often an address is one of a block.
abbrev pub blocks_at : ℕ → ℕ → List Tile → ℕ
blocks_at q p ts = occurs q (frees p ts) + occurs q (useds p ts)

pub blocks_at-before : (q p : ℕ) (ts : List Tile) → q < p → blocks_at q p ts ≡ 0
blocks_at-before q p [] h = refl
blocks_at-before q p (free n ∷ ts) h = ground (arith, blocks_at-before q (p + n) ts)
blocks_at-before q p (used n ∷ ts) h = ground (arith, blocks_at-before q (p + n) ts)

-- A block of a run, with the blocks before and behind it.
pub data At (kind : ℕ → Tile) (c p : ℕ) : List Tile → Type 0 where
  at : (us : List Tile) (n : ℕ) (vs : List Tile) → end p us ≡ c → At kind c p (us ++ kind n ∷ vs)

At-cons :
    {kind : ℕ → Tile} {c p : ℕ} {ts : List Tile} (t : Tile)
    → At kind c (p + tile_size t) ts
    → At kind c p (t ∷ ts)
At-cons t (at us n vs e) = at (t ∷ us) n vs e

pub frees-At : (c p : ℕ) (ts : List Tile) → 0 < occurs c (frees p ts) → At free c p ts
frees-At c p [] h = absurd (omega arith)
frees-At c p (used n ∷ ts) h = At-cons (used n) (frees-At c (p + n) ts h)
frees-At c p (free n ∷ ts) h = elim (Bool-cases (p == c)) [
  | inl e ↦ at [] n ts (==-≡ p c e)
  | inr e ↦ At-cons (free n) (frees-At c (p + n) ts (ground (arith)))
]

pub useds-At : (c p : ℕ) (ts : List Tile) → 0 < occurs c (useds p ts) → At used c p ts
useds-At c p [] h = absurd (omega arith)
useds-At c p (free n ∷ ts) h = At-cons (free n) (useds-At c (p + n) ts h)
useds-At c p (used n ∷ ts) h = elim (Bool-cases (p == c)) [
  | inl e ↦ at [] n ts (==-≡ p c e)
  | inr e ↦ At-cons (used n) (useds-At c (p + n) ts (ground (arith)))
]

-- The last block of a run.
pub data Last : List Tile → Type 0 where
  no_block : Last []
  last_block : (us : List Tile) (t : Tile) → Last (us ++ t ∷ [])

pub last_of : (us : List Tile) → Last us
last_of [] = no_block
last_of (t ∷ us) = last_cons t us (last_of us)
  where
    last_cons : (t : Tile) (us : List Tile) → Last us → Last (t ∷ us)
    last_cons t _ no_block = last_block [] t
    last_cons t _ (last_block us t') = last_block (t ∷ us) t'
