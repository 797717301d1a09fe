-- ===== src/Base/Words.antt =====
-- `size_t` and `unsigned long` of 64 bits, and the alignment macros of apc_sma.h.
use Prim.Native.Nat.{ℕ, ◌+◌, ◌-◌, ◌*◌, ◌/◌, ◌%◌, ◌^◌, ◌≤◌, ◌<◌}
use mathlib.Core.Path.{◌≡◌}
use native.Mathlib.Omega.{arith}

abbrev pub word_mod : ℕ
word_mod = 2 ^ 64

abbrev pub add64 : ℕ → ℕ → ℕ
add64 a b = (a + b) % word_mod

abbrev pub sub64 : ℕ → ℕ → ℕ
sub64 a b = (a + (word_mod - b % word_mod)) % word_mod

pub sub64-add : (a b : ℕ) → sub64 ((a + b) % word_mod) a ≡ b % word_mod
sub64-add a b = omega arith

-- `ALIGNSIZE(x, size)`, where `x - 1` wraps at 0.
abbrev pub align_size : ℕ → ℕ → ℕ
align_size x size = size * (1 + (x + (word_mod - 1)) % word_mod / size) % word_mod

-- `ALIGNWORD(x)`, with the 8 bytes of `apc_word_t`.
abbrev pub align_word : ℕ → ℕ
align_word x = align_size x 8

-- The rounding up is to a multiple of the word, less than a word away.
pub align_word_bounds :
    (x : ℕ)
    → 0 < x
    → x + 8 < word_mod
    → (x ≤ align_word x) × (align_word x < x + 8) × (align_word x % 8 ≡ 0)
align_word_bounds x h k = omega arith
