-- ===== src/Quantization/Int4/Rows.antt =====
-- The three ways to dequantize a packed tensor give the same cells.
use vllm_cpp.Prelude.{ℕ, ◌+◌, ◌*◌, ◌<◌, ◌≡◌, refl, ltb, if◌then◌else◌, arith}
use vllm_cpp.Prelude.Loops.{write_row_cell, rows_cell}
use vllm_cpp.Float.{Floats}
use vllm_cpp.Quantization.Int4.{
  PackedInt4Tensor, dequantize_int4_cell, dequantize_int4_row, dequantize_int4_row_range,
  dequantize_int4_full,
}

module _ (fl : Floats) where
  open fl use {Float}

  -- A range of a row holds the row's cells from its offset on, zeros past the row's end, and does
  -- not touch the buffer past the range.
  pub dequantize_int4_row_range-row :
      (t : PackedInt4Tensor Float) (row col_offset count : ℕ) (dst : ℕ → Float) (i : ℕ)
      → dequantize_int4_row_range fl t row col_offset count dst i
        ≡ (if ltb i count then dequantize_int4_row fl t row (col_offset + i) else dst i)
  unfolding dequantize_int4_row_range dequantize_int4_row
  dequantize_int4_row_range-row t row col_offset count dst i =
      write_row_cell count _ (λ k. dequantize_int4_row fl t row (col_offset + k)) dst i
        λ j hj.
          rw
            (write_row_cell t.in_features _ (dequantize_int4_cell fl t row) (λ k. fl.of_ℕ 0)
              (col_offset + j) (λ k hk. refl))
            (ground arith)

  -- The full matrix, row after row.
  pub dequantize_int4_full-row :
      (t : PackedInt4Tensor Float) (row col : ℕ)
      → row < t.out_features
      → col < t.in_features
      → dequantize_int4_full fl t (row * t.in_features + col) ≡ dequantize_int4_row fl t row col
  unfolding dequantize_int4_full
  dequantize_int4_full-row t row col hr hc =
      rows_cell t.out_features t.in_features (dequantize_int4_row fl t) _ row col hr hc
