-- ===== src/Quantization/Matmul.antt =====
-- `quantized_matmul_transpose`, cell by cell.
use vllm_cpp.Prelude.{
  ℕ, ◌+◌, ◌-◌, ◌*◌, ◌/◌, ◌<◌, ◌≤◌, ◌≡◌, refl, ap, ◌∙◌, sym, lt→ltb, ◌⊎◌, inl, inr, arith,
}
use vllm_cpp.Prelude.Loops.{
  for_range, for_range_eq, for_range_inv, for_range_snoc, write_range, write_range_in,
  write_range_out, write_range_at, mul_le_mul_right, last_or,
}
use vllm_cpp.Float.{Floats}
use vllm_cpp.Quantization.Int4.Rows.{dequantize_int4_row_range-row}
use vllm_cpp.Quantization.Tensor.{
  QuantizedTensor, dequantize_row, dequantize_row_range, tile_sum, tile_size, tile_width, fp32_cell,
  TensorType, fp32, fp16, fp8, int4_gptq, int4_awq, fp8_dequantize_row, fp8_dequantize_row_range,
  quantized_matmul_transpose,
}

module _ (fl : Floats) where
  open fl use {Float, add, mul, of_ℕ}

  -- The loop over the columns of one row: `f j` is added to column `j`.
  module _ (base n : ℕ) (f : ℕ → Float) where
    abbrev bump : ℕ → (ℕ → Float) → ℕ → Float
    bump j c = write_range (base + j) 1 (λ z. add (c (base + j)) (f j)) c

    bump_self : (j : ℕ) (c : ℕ → Float) → bump j c (base + j) ≡ add (c (base + j)) (f j)
    bump_self j c =
        let e : base + j + 0 ≡ base + j = omega arith in
        rw e at (write_range_in (base + j) 1 (λ z. add (c (base + j)) (f j)) c 0 (omega arith))

    bump_other :
        (j : ℕ) (c : ℕ → Float) (x : ℕ) → (x < base + j) ⊎ (base + j < x) → bump j c x ≡ c x
    bump_other j c x (inl h) = write_range_out (base + j) 1 _ c x (inl h)
    bump_other j c x (inr h) = write_range_out (base + j) 1 _ c x (inr (omega arith))

    columns_cell :
        (c : ℕ → Float) (j : ℕ) → j < n → for_range n 0 bump c (base + j) ≡ add (c (base + j)) (f j)
    columns_cell c j hj =
        (for_range_inv
            (λ k o.
              (j < k → o (base + j) ≡ add (c (base + j)) (f j))
              × (k ≤ j → o (base + j) ≡ c (base + j)))
            n 0 n bump c (λ k o lo hi rec. (now k o rec, later k o rec)) (omega arith)
            ((λ h. elim h [ ]), (λ h. refl))).0
          hj
      where
        now :
            (k : ℕ) (o : ℕ → Float)
            → (j < k → o (base + j) ≡ add (c (base + j)) (f j))
              × (k ≤ j → o (base + j) ≡ c (base + j))
            → j < k + 1
            → bump k o (base + j) ≡ add (c (base + j)) (f j)
        now k o rec h = elim (last_or j k h) [
          | inl e ↦
              let same : o (base + k) ≡ c (base + k) = rw e at (rec.1 (omega arith)) in
              rw e (bump_self k o ∙ ap (λ (x : Float). add x (f k)) same)
          | inr lt ↦ bump_other k o (base + j) (inl (omega arith)) ∙ rec.0 lt
        ]

        later :
            (k : ℕ) (o : ℕ → Float)
            → (j < k → o (base + j) ≡ add (c (base + j)) (f j))
              × (k ≤ j → o (base + j) ≡ c (base + j))
            → k + 1 ≤ j
            → bump k o (base + j) ≡ c (base + j)
        later k o rec h = bump_other k o (base + j) (inr (omega arith)) ∙ rec.1 (omega arith)

    columns_outside :
        (c : ℕ → Float) (x : ℕ) → (x < base) ⊎ (base + n ≤ x) → for_range n 0 bump c x ≡ c x
    columns_outside c x h =
        for_range_inv (λ k o. o x ≡ c x) n 0 n bump c
          (λ k o lo hi rec.
            bump_other k o x (elim h [ inl l ↦ inl (omega arith) | inr g ↦ inr (omega arith) ])
            ∙ rec)
          (omega arith) refl

  -- The loop over the tiles of one row.
  module _ (base n : ℕ) (f : ℕ → ℕ → Float) where
    abbrev tile_step : ℕ → (ℕ → Float) → ℕ → Float
    tile_step tile c = for_range n 0 (bump base n (f tile)) c

    tiles_cell :
        (tiles : ℕ) (c : ℕ → Float) (j : ℕ)
        → j < n
        → for_range tiles 0 tile_step c (base + j)
          ≡ for_range tiles 0 (λ tile s. add s (f tile j)) (c (base + j))
    unfolding for_range
    tiles_cell tiles c j hj =
        for_range_inv
          (λ k o. o (base + j) ≡ for_range k 0 (λ tile s. add s (f tile j)) (c (base + j))) tiles 0
          tiles tile_step c
          (λ k o lo hi rec.
            columns_cell base n (f k) o j hj
            ∙ ap (λ (x : Float). add x (f k j)) rec
            ∙ sym (for_range_snoc k (λ tile s. add s (f tile j)) (c (base + j))))
          (omega arith) refl

    tiles_outside :
        (tiles : ℕ) (c : ℕ → Float) (x : ℕ)
        → (x < base) ⊎ (base + n ≤ x)
        → for_range tiles 0 tile_step c x ≡ c x
    tiles_outside tiles c x h =
        for_range_inv (λ k o. o x ≡ c x) tiles 0 tiles tile_step c
          (λ k o lo hi rec. columns_outside base n (f k) o x h ∙ rec) (omega arith) refl

  -- A range of a row that the row has holds the row's cells.
  dequantize_row_range-row :
      (q : QuantizedTensor Float) (j p size t : ℕ) (dst : ℕ → Float)
      → t < size
      → p + t < (dequantize_row fl q j).0
      → dequantize_row_range fl q j p size dst t ≡ (dequantize_row fl q j).1 (p + t)
  unfolding dequantize_row dequantize_row_range fp8_dequantize_row fp8_dequantize_row_range
  dequantize_row_range-row q j p size t dst ht fits = go (q.type) refl
    where
      go :
          (ty : TensorType)
          → q.type ≡ ty
          → dequantize_row_range fl q j p size dst t ≡ (dequantize_row fl q j).1 (p + t)
      go fp32 e =
          rw (e, dequantize_row, dequantize_row_range)
            (write_range_at size _ dst t ht ∙ ap (fp32_cell fl q) (omega arith))
      go fp16 e =
          let none_left = rw (e, dequantize_row) at fits in absurd (omega (arith, none_left))
      go fp8 e =
          let inside = rw (e, dequantize_row) at fits in
          rw (e, dequantize_row, dequantize_row_range)
            (write_range_at size _ dst t ht
              ∙ sym (write_range_at q.fp8_tensor.in_features _ _ (p + t) inside))
      go int4_gptq e =
          rw (e, dequantize_row, dequantize_row_range)
            (rw (lt→ltb t size ht) at
              (dequantize_int4_row_range-row fl q.int4_tensor j p size dst t))
      go int4_awq e =
          rw (e, dequantize_row, dequantize_row_range)
            (rw (lt→ltb t size ht) at
              (dequantize_int4_row_range-row fl q.int4_tensor j p size dst t))

  tile_sum-row :
      (a_row : ℕ → Float) (q : QuantizedTensor Float) (j p size : ℕ)
      → p + size ≤ (dequantize_row fl q j).0
      → tile_sum fl a_row q j p size
        ≡ for_range size 0
            (λ t sum. add sum (mul (a_row (p + t)) ((dequantize_row fl q j).1 (p + t))))
            (of_ℕ 0)
  unfolding tile_sum
  tile_sum-row a_row q j p size fits = for_range_eq size 0 _ _ _ λ t sum lo hi.
      ap (λ (x : Float). add sum (mul (a_row (p + t)) x))
        (dequantize_row_range-row q j p size t _ (omega arith) (omega arith))

  -- When the rows have `k` cells, each cell of the product is the dot product of a row of `a` with a
  -- dequantized row, summed tile by tile, whatever the output buffer held.
  pub quantized_matmul_transpose-cell :
      (a : ℕ → Float) (m k : ℕ) (q : QuantizedTensor Float) (n : ℕ) (c : ℕ → Float) (i j : ℕ)
      → i < m
      → j < n
      → k ≤ (dequantize_row fl q j).0
      → quantized_matmul_transpose fl a m k q n c (i * n + j)
        ≡ for_range
            ((k + tile_width - 1) / tile_width)
            0
            (λ tile s.
              let p = tile * tile_width in
              add s (
                for_range
                  (tile_size k p)
                  0
                  (λ t sum. add sum (mul (a (i * k + (p + t))) ((dequantize_row fl q j).1 (p + t))))
                  (of_ℕ 0)))
            (of_ℕ 0)
  unfolding quantized_matmul_transpose
  quantized_matmul_transpose-cell a m k q n c i j hi hj fits =
      for_range_inv (λ r o. i < r → o (i * n + j) ≡ cell) m 0 m _ c
        (λ r o lo hi rec. row_step r o rec) (omega arith) (λ h. elim h [ ]) hi
    where
      tiles : ℕ
      tiles = (k + tile_width - 1) / tile_width

      part : ℕ → ℕ → ℕ → Float
      part r tile j =
          tile_sum fl (λ p. a (r * k + p)) q j (tile * tile_width) (tile_size k (tile * tile_width))

      cell : Float
      cell =
          for_range tiles 0
            (λ tile s.
              let p = tile * tile_width in
              add s (
                for_range (tile_size k p) 0
                  (λ t sum. add sum (mul (a (i * k + (p + t))) ((dequantize_row fl q j).1 (p + t))))
                  (of_ℕ 0)))
            (of_ℕ 0)

      parts_lem : for_range tiles 0 (λ tile s. add s (part i tile j)) (of_ℕ 0) ≡ cell
      parts_lem = for_range_eq tiles 0 _ _ _ λ tile s lo hi.
          ap (add s) (tile_sum-row (λ p. a (i * k + p)) q j (tile * tile_width) _ (ground arith))

      row_step :
          (r : ℕ) (o : ℕ → Float)
          → (i < r → o (i * n + j) ≡ cell)
          → i < r + 1
          → for_range tiles 0
              (tile_step (r * n) n (part r))
              (write_range (r * n) n (λ j. of_ℕ 0) o)
              (i * n + j)
            ≡ cell
      row_step r o rec h = elim (last_or i r h) [
        | inl e ↦ rw (← e) (
            tiles_cell (i * n) n (part i) tiles _ j hj
            ∙ ap (for_range tiles 0 (λ tile s. add s (part i tile j)))
                (write_range_in (i * n) n _ o j hj)
            ∙ parts_lem)
        | inr lt ↦
            let left : i * n + j < r * n =
              omega (arith, mul_le_mul_right (i + 1) r n (omega arith)) in
            tiles_outside (r * n) n (part r) tiles _ _ (inl left)
            ∙ write_range_out (r * n) n _ o _ (inl left)
            ∙ rec lt
      ]
