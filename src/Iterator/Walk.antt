-- ===== src/Iterator/Walk.antt =====
-- What one fetch of the active list brings: the items of the next chains, in order.
use pecl_caching_apc.Base.{
  ℕ, zero, suc, ◌+◌, ◌≤◌, ◌<◌, ◌≡◌, ◌⊎◌, inl, inr, refl, Bool, true, false, ◌&&◌, List, [], ◌∷◌,
  ◌++◌, map, append_assoc, append-nil, arith, leb, if◌then◌else◌, get_or, length, length-append,
  Bool-cases, ap, sym, ◌∙◌, subst,
}
use native.Mathlib.Numerals.{add-one}
use pecl_caching_apc.Cache.Types.{Slot, Chain}
use pecl_caching_apc.Stack.Laws.{Holds, push-Holds}
use pecl_caching_apc.Iterator.{Item, Iterator}
use pecl_caching_apc.Iterator.Items.{search_match, check_expiry}
use pecl_caching_apc.Iterator.Fetch.{Found, push_item, fetch_chain, fetch_chains}

-- The slots that pass a test.
abbrev pub select : (Slot → Bool) → Chain → Chain
select p [] = []
select p (s ∷ c) = if p s then s ∷ select p c else select p c

abbrev pub wanted : (ttl t : ℕ) → Iterator → Slot → Bool
wanted ttl t it s = check_expiry ttl t s && search_match it s

-- The items of a chain, those of a table, and those of the chains from an index on.
module _ (make : Slot → Item) (wants : Slot → Bool) where
  abbrev pub chain_items : Chain → List Item
  chain_items c = map make (select wants c)

  abbrev pub table_items : List Chain → List Item
  table_items [] = []
  table_items (l ∷ ls) = chain_items l ++ table_items ls

  abbrev pub pending_items : List Chain → (slot_idx : ℕ) → List Item
  pending_items [] i = []
  pending_items (l ∷ ls) zero = table_items (l ∷ ls)
  pending_items (l ∷ ls) (suc i) = pending_items ls i

  pub pending_items-next :
      (slots : List Chain) (i : ℕ)
      → i < length slots
      → pending_items slots i ≡ chain_items (get_or slots i []) ++ pending_items slots (suc i)
  pending_items-next [] i h = absurd (omega arith)
  pending_items-next (l ∷ []) zero h = refl
  pending_items-next (l ∷ l' ∷ ls) zero h = refl
  pending_items-next (l ∷ ls) (suc i) h = pending_items-next ls i (omega arith)

  pub pending_items-end :
      (slots : List Chain) (i : ℕ) → length slots ≤ i → pending_items slots i ≡ []
  pending_items-end [] i h = refl
  pending_items-end (l ∷ ls) zero h = absurd (omega arith)
  pending_items-end (l ∷ ls) (suc i) h = pending_items-end ls i (omega arith)

module _ (ctor : ℕ → Slot → Item) (ttl t : ℕ) (it : Iterator) where
  abbrev pub own_items : Chain → List Item
  own_items = chain_items (ctor it.format) (wanted ttl t it)

  abbrev pub own_pending : List Chain → (slot_idx : ℕ) → List Item
  own_pending = pending_items (ctor it.format) (wanted ttl t it)

  -- Items that have been pushed behind the old ones, and counted.
  abbrev pub Pushed : (r r' : Found) → (xs ys : List Item) → Type 0
  Pushed r r' xs ys = Holds r'.items (xs ++ ys) × (r'.found ≡ r.found + length ys)

  push_item-Pushed :
      (b : Bool) (s : Slot) (c : Chain) (r : Found) (xs : List Item)
      → Holds r.items xs
      → ((r' : Found) (xs' : List Item)
          → Holds r'.items xs'
          → Pushed r' (fetch_chain ctor ttl t it c r') xs' (own_items c))
      → Pushed r
          (fetch_chain ctor ttl t it c (if b then push_item (ctor it.format s) r else r))
          xs
          (map
            (ctor it.format)
            (if b then s ∷ select (wanted ttl t it) c else select (wanted ttl t it) c))
  push_item-Pushed false s c r xs h ih = ih r xs h
  push_item-Pushed true s c r xs h ih =
      let i = ctor it.format s in
      let later = ih (push_item i r) (xs ++ i ∷ []) (push-Holds r.items xs i h) in
      (
        subst (λ l. Holds (fetch_chain ctor ttl t it c (push_item i r)).items l)
            (append_assoc xs (i ∷ []) (own_items c)) (later.0),
        omega (arith, later.1),
      )

  fetch_chain-Pushed :
      (c : Chain) (r : Found) (xs : List Item)
      → Holds r.items xs
      → Pushed r (fetch_chain ctor ttl t it c r) xs (own_items c)
  unfolding fetch_chain
  fetch_chain-Pushed [] r xs h = (subst (Holds r.items) (sym (append-nil xs)) h, omega arith)
  fetch_chain-Pushed (s ∷ c) r xs h =
      push_item-Pushed (wanted ttl t it s) s c r xs h (fetch_chain-Pushed c)

  -- What the outer loop leaves: the items that it has pushed are the first of those that were
  -- pending, and it ends at the table's end or above the chunk size.
  pub record Fetched (slots : List Chain) (i : ℕ) (r : Found) (xs : List Item) (out : ℕ × Found)
      : Type 0 where
    pub brought : List Item
    pub pushed : Pushed r (out.1) xs brought
    pub remaining : own_pending slots i ≡ brought ++ own_pending slots (out.0)
    pub inside : out.0 ≤ length slots
    pub stops : (length slots ≤ out.0) ⊎ (it.chunk_size < out.1.found)

  fetch_chains-step :
      (fuel i : ℕ) (slots : List Chain) (r : Found) (xs : List Item)
      → Holds r.items xs
      → i < length slots
      → ((r' : Found) (xs' : List Item)
          → Holds r'.items xs'
          → Fetched slots (i + 1) r' xs' (fetch_chains ctor fuel ttl t it slots (i + 1) r'))
      → Fetched slots i r xs (
          fetch_chains ctor fuel ttl t it slots
            (i + 1)
            (fetch_chain ctor ttl t it (get_or slots i []) r))
  fetch_chains-step fuel i slots r xs h inside ih =
      let l = get_or slots i [] in
      let here = fetch_chain-Pushed l r xs h in
      let later = ih (fetch_chain ctor ttl t it l r) (xs ++ own_items l) (here.0) in
      record {
        brought = own_items l ++ later.brought;
        pushed = (
          subst
              (Holds
                (fetch_chains ctor fuel ttl t it slots (i + 1)
                  (fetch_chain ctor ttl t it l r)).1.items)
              (append_assoc xs (own_items l) later.brought) (later.pushed.0),
          omega (arith, here.1, later.pushed.1, length-append (own_items l) later.brought),
        );
        remaining =
            pending_items-next (ctor it.format) (wanted ttl t it) slots i inside
            ∙ ap (λ n. own_items l ++ own_pending slots n) (sym (add-one i))
            ∙ ap (λ ys. own_items l ++ ys) later.remaining
            ∙ sym (append_assoc (own_items l) later.brought _);
        inside = later.inside;
        stops = later.stops;
      }

  fetch_chains-stops :
      (i : ℕ) (slots : List Chain) (r : Found) (xs : List Item)
      → Holds r.items xs
      → i ≤ length slots
      → (length slots ≤ i) ⊎ (it.chunk_size < r.found)
      → Fetched slots i r xs (i, r)
  fetch_chains-stops i slots r xs h within stop = record {
    inside = within;
    brought = [];
    pushed = (subst (Holds r.items) (sym (append-nil xs)) h, omega arith);
    remaining = refl;
    stops = stop;
  }

  pub fetch_chains-Fetched :
      (fuel i : ℕ) (slots : List Chain) (r : Found) (xs : List Item)
      → Holds r.items xs
      → i + fuel ≡ length slots
      → Fetched slots i r xs (fetch_chains ctor fuel ttl t it slots i r)
  unfolding fetch_chains
  fetch_chains-Fetched zero i slots r xs h enough =
      fetch_chains-stops i slots r xs h (omega arith) (inl (omega arith))
  fetch_chains-Fetched (suc fuel) i slots r xs h enough =
      elim (Bool-cases (leb r.found it.chunk_size)) [
        | inl e ↦ rw e (
            fetch_chains-step fuel i slots r xs h (omega arith)
              (λ r' xs' h'. fetch_chains-Fetched fuel (i + 1) slots r' xs' h' (omega arith)))
        | inr e ↦ rw e (fetch_chains-stops i slots r xs h (omega arith) (inr (ground (arith))))
      ]
