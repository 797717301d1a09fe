-- ===== src/Stack.antt =====
-- apc_stack.c: the growing array of pointers behind the iterator. `mallocs` of the array do not
-- fail (`apc_emalloc` aborts instead), and the capacity stays within an `int`.
pub mod Laws
mod Tests
use pecl_caching_apc.Base.{
  ℕ, suc, ◌+◌, ◌-◌, ◌*◌, Bool, Option, none, some, List, ◌++◌, ◌==◌, ltb, if◌then◌else◌, get_or,
  set, take, replicate,
}

-- A cell of the array that nothing has been written to is `none`.
pub record Stack {ℓ} (A : Type ℓ) : Type ℓ where
  pub cells : List (Option A)
  pub capacity : ℕ
  pub size : ℕ

module _ {ℓ} {A : Type ℓ} where
  -- `apc_stack_create`; a hint of zero or less is given as 0.
  pub create : ℕ → Stack A
  create size_hint =
      let n = if ltb 0 size_hint then size_hint else 10 in
      record { cells = replicate n none; capacity = n; size = 0 }

  -- `apc_stack_clear`
  pub clear : Stack A → Stack A
  clear s = record s { size = 0 }

  -- The growth step of `apc_stack_push`: `apc_erealloc` keeps the old cells.
  pub grow : Stack A → Stack A
  grow s =
      if s.size == s.capacity
      then record s { cells = s.cells ++ replicate s.capacity none; capacity = s.capacity * 2 }
      else s

  -- `apc_stack_push`
  pub push : Stack A → A → Stack A
  unfolding grow
  push s item =
      let g = grow s in record g { cells = set g.cells g.size (some item); size = g.size + 1 }

  -- `apc_stack_get`; `none` is the failed assertion.
  pub get : Stack A → ℕ → Option A
  get s n = if ltb n s.size then get_or s.cells n none else none

  -- `apc_stack_top`
  pub top : Stack A → Option A
  top s = if ltb 0 s.size then get_or s.cells (s.size - 1) none else none

  -- `apc_stack_pop`
  pub pop : Stack A → Option (A × Stack A)
  pop s =
      if ltb 0 s.size
      then (elim (get_or s.cells (s.size - 1) none) [
        | none ↦ none
        | some a ↦ some (a, record s { size = s.size - 1 })
      ])
      else none
