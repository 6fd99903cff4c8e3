-- ===== src/Tensor/Rows.antt =====
-- A whole tensor against its rows.
use vllm_cpp.Prelude.{
  ℕ, ◌+◌, ◌*◌, ◌/◌, ◌<◌, ◌==◌, ◌≡◌, refl, ◌⊎◌, inl, inr, false, [], ◌∷◌, none, some, arith,
}
use native.Mathlib.Nat.{div-eq_of_eq-mul_right}
use vllm_cpp.Prelude.Loops.{mul_le_mul_right}
use vllm_cpp.Float.{Floats}
use vllm_cpp.Quantization.Int4.{cell}
use vllm_cpp.Quantization.Int4.Rows.{dequantize_int4_full-row}
use vllm_cpp.Quantization.Tensor.{
  QuantizedTensor, int4_gptq, int4_awq, to_float_vector, dequantize_row,
}
use vllm_cpp.Tensor.{Tensor, quantized, to_vector, tensor_row}

module _ (fl : Floats) where
  open fl use {Float}

  -- A cell of a tensor of floats with `rows` rows of `cols` cells.
  pub record IsFloatCell (t : Tensor Float) (rows cols row col : ℕ) : Type 0 where
    pub cells : ℕ → Float
    pub plain : quantized t ≡ none
    pub filled : t.data_ptr ≡ some cells
    pub shaped : t.shape ≡ rows ∷ cols ∷ []
    pub counted : t.numel ≡ rows * cols
    pub row_lt : row < rows
    pub col_lt : col < cols

  -- A cell of a tensor that holds packed INT4 weights.
  pub record IsInt4Cell (t : Tensor Float) (rows cols row col : ℕ) : Type 0 where
    pub q : QuantizedTensor Float
    pub stands_for : quantized t ≡ some q
    pub packed : (q.type ≡ int4_gptq) ⊎ (q.type ≡ int4_awq)
    pub out_rows : q.int4_tensor.out_features ≡ rows
    pub in_cols : q.int4_tensor.in_features ≡ cols
    pub row_lt : row < rows
    pub col_lt : col < cols

  int4_cell :
      (q : QuantizedTensor Float) (row col : ℕ)
      → (q.type ≡ int4_gptq) ⊎ (q.type ≡ int4_awq)
      → row < q.int4_tensor.out_features
      → col < q.int4_tensor.in_features
      → let n = q.int4_tensor.in_features in
        ((to_float_vector fl q).0 ≡ q.int4_tensor.out_features * n)
        × ((dequantize_row fl q row).0 ≡ n)
        × ((to_float_vector fl q).1 (row * n + col) ≡ (dequantize_row fl q row).1 col)
  unfolding to_float_vector dequantize_row
  int4_cell q row col (inl e) r c =
      rw (e, to_float_vector, dequantize_row)
        (refl, refl, dequantize_int4_full-row fl q.int4_tensor row col r c)
  int4_cell q row col (inr e) r c =
      rw (e, to_float_vector, dequantize_row)
        (refl, refl, dequantize_int4_full-row fl q.int4_tensor row col r c)

  -- The vector of a whole tensor has its rows times its columns for size and holds the rows one
  -- after another, and a row has the columns for size: for a tensor of floats with data, and for
  -- packed INT4 weights.
  pub to_vector-tensor_row :
      (t : Tensor Float) (rows cols row col : ℕ)
      → IsFloatCell t rows cols row col ⊎ IsInt4Cell t rows cols row col
      → ((to_vector fl t).0 ≡ rows * cols)
        × ((tensor_row fl t row).0 ≡ cols)
        × ((to_vector fl t).1 (row * cols + col) ≡ (tensor_row fl t row).1 col)
  unfolding to_vector tensor_row cell
  to_vector-tensor_row t rows cols row col (inl c) =
      let some_cells : (t.numel == 0) ≡ false = ground (
        arith,
        c.counted,
        c.row_lt,
        c.col_lt,
        mul_le_mul_right 1 rows cols (omega (arith, c.row_lt)),
      ) in
      let width : t.numel / rows ≡ cols =
        div-eq_of_eq-mul_right (omega (arith, c.row_lt)) c.counted in
      rw (c.plain, to_vector, tensor_row)
        (rw (c.filled, some_cells, c.shaped) (rw width (c.counted, refl, refl)))
  to_vector-tensor_row t rows cols row col (inr c) =
      let h =
        int4_cell c.q row col c.packed (omega (arith, c.out_rows, c.row_lt))
          (omega (arith, c.in_cols, c.col_lt)) in
      rw (c.stands_for, to_vector, tensor_row) (rw (← c.out_rows, ← c.in_cols) h)
