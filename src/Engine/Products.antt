-- ===== src/Engine/Products.antt =====
-- `matmul_transpose`, cell by cell.
use vllm_cpp.Prelude.{ℕ, ◌+◌, ◌*◌, ◌<◌, ◌≤◌, ◌≡◌, ◌∙◌, refl, ◌⊎◌, inl, inr, arith}
use vllm_cpp.Prelude.Loops.{
  for_range, for_range_inv, write_range, write_range_in, write_range_out, mul_le_mul_right, last_or,
}
use vllm_cpp.Float.{Floats}
use vllm_cpp.Attention.{dot}
use vllm_cpp.Engine.{matmul_transpose}

-- Cells written one by one from `base` on.
module _ {ℓ} {A : Type ℓ} (base n : ℕ) (f : ℕ → A) where
  abbrev put : ℕ → (ℕ → A) → ℕ → A
  put j = write_range (base + j) 1 (λ z. f j)

  cells_in : (c : ℕ → A) (j : ℕ) → j < n → for_range n 0 put c (base + j) ≡ f j
  cells_in c j hj =
      for_range_inv (λ k o. j < k → o (base + j) ≡ f j) n 0 n put c
        (λ k o lo hi rec h. now k o rec h) (omega arith) (λ h. elim h [ ]) hj
    where
      now :
          (k : ℕ) (o : ℕ → A) → (j < k → o (base + j) ≡ f j) → j < k + 1 → put k o (base + j) ≡ f j
      now k o rec h = elim (last_or j k h) [
        | inl e ↦
            let z : base + k + 0 ≡ base + k = omega arith in
            rw e (rw z at (write_range_in (base + k) 1 (λ z. f k) o 0 (omega arith)))
        | inr lt ↦ write_range_out (base + k) 1 _ o (base + j) (inl (omega arith)) ∙ rec lt
      ]

  cells_out : (c : ℕ → A) (x : ℕ) → (x < base) ⊎ (base + n ≤ x) → for_range n 0 put c x ≡ c x
  cells_out c x h =
      for_range_inv (λ k o. o x ≡ c x) n 0 n put c
        (λ k o lo hi rec.
          write_range_out (base + k) 1 _ o x
            (elim h [ inl l ↦ inl (omega arith) | inr g ↦ inr (omega arith) ])
          ∙ rec)
        (omega arith) refl

module _ (fl : Floats) where
  open fl use {Float}

  -- Cell (i, j) of the product is the dot product of row i of `a` and row j of `b`, whatever the
  -- output held.
  pub matmul_transpose-cell :
      (a b c : ℕ → Float) (m k n i j : ℕ)
      → i < m
      → j < n
      → matmul_transpose fl a m k b n c (i * n + j)
        ≡ dot fl k (λ p. a (i * k + p)) (λ p. b (j * k + p))
  unfolding matmul_transpose
  matmul_transpose-cell a b c m k n i j hi hj =
      for_range_inv (λ r o. i < r → o (i * n + j) ≡ product i) m 0 m _ c
        (λ r o lo hi' rec h. row_step r o rec h) (omega arith) (λ h. elim h [ ]) hi
    where
      product : ℕ → Float
      product r = dot fl k (λ p. a (r * k + p)) (λ p. b (j * k + p))

      row : ℕ → ℕ → Float
      row r j = dot fl k (λ p. a (r * k + p)) (λ p. b (j * k + p))

      row_step :
          (r : ℕ) (o : ℕ → Float)
          → (i < r → o (i * n + j) ≡ product i)
          → i < r + 1
          → for_range n 0 (put (r * n) n (row r)) o (i * n + j) ≡ product i
      row_step r o rec h = elim (last_or i r h) [
        | inl e ↦ rw (← e) (cells_in (i * n) n (row i) o j hj)
        | inr lt ↦
            cells_out (r * n) n (row r) o _
              (inl (omega (arith, mul_le_mul_right (i + 1) r n (omega arith))))
            ∙ rec lt
      ]
