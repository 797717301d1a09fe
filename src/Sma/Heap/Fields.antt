-- ===== src/Sma/Heap/Fields.antt =====
-- What the steps of `sma_allocate` and `sma_deallocate` write, field by field.
use pecl_caching_apc.Base.{ℕ, ◌+◌, ◌-◌, ◌<◌, ◌≡◌, ◌≢◌, arith}
use pecl_caching_apc.Sma.{
  Blocks, write, set_size, set_prev_size, set_fnext, set_fprev, set_canary, unlink, split,
  canary_value,
}
use pecl_caching_apc.Sma.Heap.Links.{update}

abbrev pub sizes : Blocks → ℕ → ℕ
sizes m q = (m q).size

abbrev pub prev_sizes : Blocks → ℕ → ℕ
prev_sizes m q = (m q).prev_size

abbrev pub nexts : Blocks → ℕ → ℕ
nexts m q = (m q).fnext

abbrev pub previouses : Blocks → ℕ → ℕ
previouses m q = (m q).fprev

abbrev pub canaries : Blocks → ℕ → ℕ
canaries m q = (m q).canary

-- The block that is handed out.
abbrev pub handed_out : ℕ → Blocks → Blocks
handed_out cur m = set_canary cur (set_fnext cur 0 m)

module _ (cur : ℕ) (m : Blocks) (q : ℕ) where
  pub handed_out-sizes : sizes (handed_out cur m) q ≡ sizes m q
  unfolding set_canary set_fnext write
  handed_out-sizes = ground (arith)

  pub handed_out-prev_sizes : prev_sizes (handed_out cur m) q ≡ prev_sizes m q
  unfolding set_canary set_fnext write
  handed_out-prev_sizes = ground (arith)

  pub handed_out-nexts : nexts (handed_out cur m) q ≡ update (nexts m) cur 0 q
  unfolding set_canary set_fnext write
  handed_out-nexts = ground (arith)

  pub handed_out-previouses : previouses (handed_out cur m) q ≡ previouses m q
  unfolding set_canary set_fnext write
  handed_out-previouses = ground (arith)

  pub handed_out-canaries : canaries (handed_out cur m) q ≡ update (canaries m) cur canary_value q
  unfolding set_canary set_fnext write
  handed_out-canaries = ground (arith)

module _ (prv cur : ℕ) (m : Blocks) (q : ℕ) where
  pub unlink-sizes : sizes (unlink prv cur m) q ≡ sizes m q
  unfolding unlink set_fnext set_fprev set_prev_size write
  unlink-sizes = ground (arith)

  pub unlink-prev_sizes :
      prev_sizes (unlink prv cur m) q ≡ update (prev_sizes m) (cur + (m cur).size) 0 q
  unfolding unlink set_fnext set_fprev set_prev_size write
  unlink-prev_sizes = ground (arith)

  pub unlink-nexts : nexts (unlink prv cur m) q ≡ update (nexts m) prv (m cur).fnext q
  unfolding unlink set_fnext set_fprev set_prev_size write
  unlink-nexts = ground (arith)

  pub unlink-previouses :
      prv ≢ cur → previouses (unlink prv cur m) q ≡ update (previouses m) (m cur).fnext prv q
  unfolding unlink set_fnext set_fprev set_prev_size write
  unlink-previouses h = ground (arith)

  pub unlink-canaries : canaries (unlink prv cur m) q ≡ canaries m q
  unfolding unlink set_fnext set_fprev set_prev_size write
  unlink-canaries = ground (arith)

module _ (cur realsize : ℕ) (m : Blocks) (q : ℕ) (some_size : 0 < realsize) where
  pub split-sizes :
      sizes (split cur realsize m) q
      ≡ update (update (sizes m) cur realsize) (cur + realsize) ((m cur).size - realsize) q
  unfolding split set_size set_fnext set_fprev set_prev_size set_canary write
  split-sizes = ground (arith)

  pub split-prev_sizes :
      prev_sizes (split cur realsize m) q
      ≡ update
          (update (prev_sizes m) (cur + realsize) 0)
          (cur + realsize + ((m cur).size - realsize))
          ((m cur).size - realsize)
          q
  unfolding split set_size set_fnext set_fprev set_prev_size set_canary write
  split-prev_sizes = ground (arith)

  pub split-nexts :
      (m cur).fnext ≢ cur + realsize
      → nexts (split cur realsize m) q
        ≡ update (update (nexts m) (cur + realsize) (m cur).fnext) (m cur).fprev (cur + realsize) q
  unfolding split set_size set_fnext set_fprev set_prev_size set_canary write
  split-nexts h = ground (arith)

  pub split-previouses :
      previouses (split cur realsize m) q
      ≡ update
          (update (previouses m) (cur + realsize) (m cur).fprev)
          (m cur).fnext
          (cur + realsize)
          q
  unfolding split set_size set_fnext set_fprev set_prev_size set_canary write
  split-previouses = ground (arith)

  pub split-canaries :
      canaries (split cur realsize m) q ≡ update (canaries m) (cur + realsize) canary_value q
  unfolding split set_size set_fnext set_fprev set_prev_size set_canary write
  split-canaries = ground (arith)
