-- ===== src/Quantization/Tensor.antt =====
-- `FP8QuantizedTensor` and `QuantizedTensor` of src/quantization.h, their methods in
-- src/quantization.cpp, and `quantized_matmul_transpose`. A vector is its size with its cells, a
-- pointer a function of the index; what lies outside a vector, which the source must not read, is
-- zero.
use vllm_cpp.Prelude.{
  ℕ, ◌+◌, ◌-◌, ◌*◌, ◌/◌, ◌%◌, ◌^◌, ◌==◌, leb, ltb, if◌then◌else◌, true, false, List, [], ◌∷◌,
  Option, none, some, length,
}
use vllm_cpp.Prelude.Loops.{for_range, write_range}
use vllm_cpp.Float.{Floats}
use vllm_cpp.KvCache.Codec.{normalize, pack_float}
use vllm_cpp.Quantization.Fp8.{compute_e4m3_to_float}
use vllm_cpp.Quantization.Int4.{
  cell, PackedInt4Tensor, dequantize_int4_row, dequantize_int4_row_range, dequantize_int4_full,
}

pub record Fp8QuantizedTensor (Float : Type 0) : Type 0 where
  pub data_bytes : List ℕ
  pub scales : List Float
  pub in_features : ℕ
  pub out_features : ℕ

pub data TensorType : Type 0 where
  fp32 fp16 fp8 int4_gptq int4_awq : TensorType

pub record QuantizedTensor (Float : Type 0) : Type 0 where
  pub type : TensorType
  pub fp32_data : Option (ℕ → Float)
  pub fp16_data : Option (ℕ → ℕ)
  pub fp8_tensor : Fp8QuantizedTensor Float
  pub int4_tensor : PackedInt4Tensor Float
  pub numel : ℕ
  pub shape : List ℕ

-- The pattern that `to_float_vector` makes of a half. The exponent of a subnormal counts down from 0
-- in 32 bits.
unfoldable pub fp16_pattern : ℕ → ℕ
unfolding normalize pack_float
fp16_pattern h =
    let sign = h / 2 ^ 15 % 2 in
    let exp = h / 2 ^ 10 % 2 ^ 5 in
    let frac = h % 2 ^ 10 in
    if exp == 0
    then if frac == 0
      then sign * 2 ^ 31
      else (let (frac', exp') = normalize 10 (frac * 2) exp in
          let e = if ltb 0 exp' then exp' + 2 ^ 32 - 9 else 0 in
          pack_float sign ((127 + e) % 2 ^ 9) (frac' % 2 ^ 10))
    else if exp == 31
    then sign * 2 ^ 31 + 0x7F800000
    else pack_float sign (127 - 15 + exp) frac

-- The multiplication of `from_fp32` over the shape.
unfoldable pub product : List ℕ → ℕ
product [] = 1
product (d ∷ ds) = d * product ds

abbrev pub tile_width : ℕ
tile_width = 64

-- The size of the tile that begins at `p_start`: std::min(p_start + BLK, k) - p_start.
abbrev pub tile_size : ℕ → ℕ → ℕ
tile_size k p_start = if leb (p_start + tile_width) k then tile_width else k - p_start

module _ (fl : Floats) where
  open fl use {Float, of_ℕ, of_bits, add, mul}

  -- A tensor with the members' default values.
  abbrev default_fp8 : Fp8QuantizedTensor Float
  default_fp8 = record { data_bytes = []; scales = []; in_features = 0; out_features = 0 }

  abbrev default_int4 : PackedInt4Tensor Float
  default_int4 = record {
    qweight = [];
    qzeros = [];
    scales = [];
    g_idx = [];
    in_features = 0;
    out_features = 0;
    group_size = 128;
    bits = 4;
    desc_act = false;
    is_awq = false;
  }

  abbrev default_tensor : QuantizedTensor Float
  default_tensor = record {
    type = fp32;
    fp32_data = none;
    fp16_data = none;
    fp8_tensor = default_fp8;
    int4_tensor = default_int4;
    numel = 0;
    shape = [];
  }

  unfoldable pub from_fp32 : Option (ℕ → Float) → List ℕ → QuantizedTensor Float
  from_fp32 data_ptr shape = record default_tensor {
    fp32_data = data_ptr;
    shape = shape;
    numel = elim data_ptr [ none ↦ 0 * product shape | some f ↦ 1 * product shape ];
  }

  unfoldable pub from_gptq : PackedInt4Tensor Float → List ℕ → QuantizedTensor Float
  from_gptq packed shape = record default_tensor {
    type = int4_gptq;
    int4_tensor = record packed { out_features = cell 0 shape 0; in_features = cell 0 shape 1 };
    shape = shape;
  }

  unfoldable pub from_awq : PackedInt4Tensor Float → List ℕ → QuantizedTensor Float
  from_awq packed shape = record default_tensor {
    type = int4_awq;
    int4_tensor = record packed {
      out_features = cell 0 shape 0;
      in_features = cell 0 shape 1;
      is_awq = true;
    };
    shape = shape;
  }

  unfoldable pub from_fp8 : Fp8QuantizedTensor Float → List ℕ → QuantizedTensor Float
  from_fp8 t shape = record default_tensor { type = fp8; fp8_tensor = t; shape = shape }

  unfoldable pub scale : Fp8QuantizedTensor Float → ℕ → Float
  scale t row =
      if ltb 1 (length t.scales) then cell (of_ℕ 0) t.scales row else cell (of_ℕ 0) t.scales 0

  unfoldable pub fp8_cell : Fp8QuantizedTensor Float → ℕ → ℕ → Float
  unfolding scale
  fp8_cell t row i =
      mul (compute_e4m3_to_float fl (cell 0 t.data_bytes (row * t.in_features + i))) (scale t row)

  unfoldable pub fp8_dequantize_row : Fp8QuantizedTensor Float → ℕ → ℕ → Float
  unfolding fp8_cell
  fp8_dequantize_row t row = write_range 0 t.in_features (fp8_cell t row) (λ i. of_ℕ 0)

  unfoldable pub fp8_dequantize_row_range :
      Fp8QuantizedTensor Float → ℕ → ℕ → ℕ → (ℕ → Float) → ℕ → Float
  unfolding fp8_cell
  fp8_dequantize_row_range t row col_offset count dst =
      write_range 0 count (λ i. fp8_cell t row (col_offset + i)) dst

  -- The size of the vector and its cells.
  unfoldable pub to_float_vector : QuantizedTensor Float → ℕ × (ℕ → Float)
  unfolding fp8_dequantize_row fp16_pattern
  to_float_vector t = elim (t.type) [
    | fp32 ↦ elim (t.fp32_data) [ none ↦ (0, λ i. of_ℕ 0) | some f ↦ (t.numel, f) ]
    | fp16 ↦ elim (t.fp16_data) [
      | none ↦ (0, λ i. of_ℕ 0)
      | some f ↦ (t.numel, λ i. of_bits (fp16_pattern (f i)))
    ]
    | fp8 ↦ (t.fp8_tensor.in_features, fp8_dequantize_row t.fp8_tensor 0)
    | int4_gptq ↦ (
      t.int4_tensor.out_features * t.int4_tensor.in_features,
      dequantize_int4_full fl t.int4_tensor,
    )
    | int4_awq ↦ (
      t.int4_tensor.out_features * t.int4_tensor.in_features,
      dequantize_int4_full fl t.int4_tensor,
    )
  ]

  -- Reading an FP32 tensor that has no data is not allowed; here it gives zeros.
  abbrev pub fp32_cell : QuantizedTensor Float → ℕ → Float
  fp32_cell t i = elim (t.fp32_data) [ none ↦ of_ℕ 0 | some f ↦ f i ]

  abbrev columns : QuantizedTensor Float → ℕ
  columns t = t.numel / cell 0 t.shape 0

  unfoldable pub dequantize_row : QuantizedTensor Float → ℕ → ℕ × (ℕ → Float)
  unfolding fp8_dequantize_row
  dequantize_row t row = elim (t.type) [
    | fp32 ↦ (columns t, λ i. fp32_cell t (row * columns t + i))
    | fp16 ↦ (0, λ i. of_ℕ 0)
    | fp8 ↦ (t.fp8_tensor.in_features, fp8_dequantize_row t.fp8_tensor row)
    | int4_gptq ↦ (t.int4_tensor.in_features, dequantize_int4_row fl t.int4_tensor row)
    | int4_awq ↦ (t.int4_tensor.in_features, dequantize_int4_row fl t.int4_tensor row)
  ]

  -- The buffer `dst` after the call.
  unfoldable pub dequantize_row_range : QuantizedTensor Float → ℕ → ℕ → ℕ → (ℕ → Float) → ℕ → Float
  unfolding fp8_dequantize_row_range
  dequantize_row_range t row col_offset count dst = elim (t.type) [
    | fp32 ↦ write_range 0 count (λ i. fp32_cell t (row * columns t + col_offset + i)) dst
    | fp16 ↦ write_range 0 count (λ i. of_ℕ 0) dst
    | fp8 ↦ fp8_dequantize_row_range t.fp8_tensor row col_offset count dst
    | int4_gptq ↦ dequantize_int4_row_range fl t.int4_tensor row col_offset count dst
    | int4_awq ↦ dequantize_int4_row_range fl t.int4_tensor row col_offset count dst
  ]

  -- One tile of one output: its part of the dot product.
  unfoldable pub tile_sum : (ℕ → Float) → QuantizedTensor Float → ℕ → ℕ → ℕ → Float
  unfolding dequantize_row_range
  tile_sum a_row q j p_start size =
      let q_tile = dequantize_row_range q j p_start size (λ i. of_ℕ 0) in
      for_range size 0 (λ t sum. add sum (mul (a_row (p_start + t)) (q_tile t))) (of_ℕ 0)

  -- for (p_start = 0; p_start < k; p_start += BLK), which takes (k + BLK - 1) / BLK rounds.
  unfoldable pub quantized_matmul_transpose :
      (ℕ → Float) → ℕ → ℕ → QuantizedTensor Float → ℕ → (ℕ → Float) → ℕ → Float
  unfolding tile_sum
  quantized_matmul_transpose a m k q n c =
      for_range m 0
        (λ i c.
          for_range ((k + tile_width - 1) / tile_width) 0
            (λ tile c.
              let p_start = tile * tile_width in
              for_range n 0
                (λ j c.
                  let sum = tile_sum (λ p. a (i * k + p)) q j p_start (tile_size k p_start) in
                  write_range (i * n + j) 1 (λ z. add (c (i * n + j)) sum) c)
                c)
            (write_range (i * n) n (λ j. of_ℕ 0) c))
        c
