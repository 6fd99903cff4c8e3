-- ===== src/Attention/Gather.antt =====
-- `read_kv_prefill`: the rows that a block table scatters, side by side.
use vllm_cpp.Prelude.{
  ℕ, ◌+◌, ◌*◌, ◌/◌, ◌%◌, ◌<◌, ◌≡◌, refl, ◌∙◌, List, inl, inr, ℤ, some, get_elem?, arith,
}
use vllm_cpp.Prelude.Loops.{
  for_range_inv, write_range, write_range_in, write_range_out, mul_le_mul_right, last_or,
}
use vllm_cpp.Config.{block_size}
use vllm_cpp.Float.{Floats}
use vllm_cpp.KvCache.Pool.{BlockPool}
use vllm_cpp.KvCache.Storage.{get_k, get_v}
use vllm_cpp.Attention.{cache_row, read_step, read_kv_prefill}

module _ (fl : Floats) where
  open fl use {Float}

  -- A position that has storage: the table has a block for it, the pool the block's layer.
  pub record IsCached (table : List ℤ) (pool : BlockPool) (layer : ℤ) (p : ℕ) : Type 0 where
    pub id : ℤ
    pub k_view : ℕ → Float
    pub v_view : ℕ → Float
    pub at : get_elem? table (p / block_size) ≡ some id
    pub k_at : get_k fl id layer pool ≡ some k_view
    pub v_at : get_v fl id layer pool ≡ some v_view

  -- A position's keys and values from `off` on.
  abbrev pub k_row :
      {table : List ℤ} {pool : BlockPool} {layer : ℤ} {p : ℕ}
      → IsCached table pool layer p
      → ℕ
      → ℕ
      → Float
  k_row {pool = pool} {p = p} c off d = c.k_view (p % block_size * pool.kv_dim + off + d)

  abbrev pub v_row :
      {table : List ℤ} {pool : BlockPool} {layer : ℤ} {p : ℕ}
      → IsCached table pool layer p
      → ℕ
      → ℕ
      → Float
  v_row {pool = pool} {p = p} c off d = c.v_view (p % block_size * pool.kv_dim + off + d)

  pub cache_row-IsCached :
      {table : List ℤ} {pool : BlockPool} {layer : ℤ} {p : ℕ} (c : IsCached table pool layer p)
      (off : ℕ)
      → (cache_row fl (get_k fl) table pool layer off p ≡ some (k_row c off))
        × (cache_row fl (get_v fl) table pool layer off p ≡ some (v_row c off))
  unfolding cache_row
  cache_row-IsCached c off =
      (rw (c.at, cache_row) (rw (c.k_at) refl), rw (c.at, cache_row) (rw (c.v_at) refl))

  module _ (table : List ℤ) (pool : BlockPool) (layer : ℤ) where
    -- One step of the loop: its own row comes, the rows before it stay.
    module _ (k : ℕ) (o : (ℕ → Float) × (ℕ → Float)) (c : IsCached table pool layer k) where
      step_lem : read_step fl table layer pool k o ≡ (
        write_range (k * pool.kv_dim) pool.kv_dim (k_row c 0) o.0,
        write_range (k * pool.kv_dim) pool.kv_dim (v_row c 0) o.1,
      )
      unfolding read_step
      step_lem = let e = cache_row-IsCached c 0 in rw (e.0, read_step) (rw (e.1) refl)

      own_row :
          (d : ℕ)
          → d < pool.kv_dim
          → ((read_step fl table layer pool k o).0 (k * pool.kv_dim + d) ≡ k_row c 0 d)
            × ((read_step fl table layer pool k o).1 (k * pool.kv_dim + d) ≡ v_row c 0 d)
      own_row d hd = rw step_lem (write_range_in _ _ _ _ d hd, write_range_in _ _ _ _ d hd)

      earlier_row :
          (a d : ℕ)
          → a < k
          → d < pool.kv_dim
          → ((read_step fl table layer pool k o).0 (a * pool.kv_dim + d)
              ≡ o.0 (a * pool.kv_dim + d))
            × ((read_step fl table layer pool k o).1 (a * pool.kv_dim + d)
                ≡ o.1 (a * pool.kv_dim + d))
      earlier_row a d ha hd =
          let before = mul_le_mul_right (a + 1) k pool.kv_dim (omega arith) in
          let left : (a * pool.kv_dim + d < k * pool.kv_dim) = omega arith in
          rw step_lem (write_range_out _ _ _ _ _ (inl left), write_range_out _ _ _ _ _ (inl left))

    module _ (n : ℕ) (cached : (p : ℕ) → p < n → IsCached table pool layer p) where
      -- The rows of the positions below `k` are in place.
      abbrev AreRead : ℕ → (ℕ → Float) × (ℕ → Float) → Type 0
      AreRead k o =
          (a : ℕ) (h : a < n) (d : ℕ)
          → a < k
          → d < pool.kv_dim
          → (o.0 (a * pool.kv_dim + d) ≡ k_row (cached a h) 0 d)
            × (o.1 (a * pool.kv_dim + d) ≡ v_row (cached a h) 0 d)

      step-AreRead :
          (k : ℕ) (o : (ℕ → Float) × (ℕ → Float))
          → k < n
          → AreRead k o
          → AreRead (k + 1) (read_step fl table layer pool k o)
      step-AreRead k o hk rows a h d ha hd = elim (last_or a k ha) [
        | inl e ↦ let c : IsCached table pool layer a = cached a h in rw (← e) (own_row a o c d hd)
        | inr lt ↦
            let stays = earlier_row k o (cached k hk) a d lt hd in
            (stays.0 ∙ (rows a h d lt hd).0, stays.1 ∙ (rows a h d lt hd).1)
      ]

      -- When every position below `n` has storage, reading `n` positions puts the keys and values of
      -- each at its own place of the contiguous buffers.
      pub read_kv_prefill_lem :
          (out : (ℕ → Float) × (ℕ → Float)) (p d : ℕ) (h : p < n)
          → d < pool.kv_dim
          → let r = read_kv_prefill fl table n layer pool out in
            (r.0 (p * pool.kv_dim + d) ≡ k_row (cached p h) 0 d)
            × (r.1 (p * pool.kv_dim + d) ≡ v_row (cached p h) 0 d)
      unfolding read_kv_prefill
      read_kv_prefill_lem out p d h hd =
          for_range_inv AreRead n 0 n (read_step fl table layer pool) out
            (λ k o lo hi rows. step-AreRead k o (omega arith) rows) (omega arith)
            (λ a h d ha hd. elim ha [ ]) p h d h hd
