-- ===== src/Tests/Weights.antt =====
-- The properties of quantized weights at concrete tensors.
use vllm_cpp.Prelude.{
  ℕ, none, inl, inr, some, zero, suc, ◌+◌, ◌-◌, ◌*◌, ◌/◌, ◌^◌, ◌<◌, ◌≡◌, refl, ltb, ltb→lt, All,
  if◌then◌else◌, true, false, List, [], ◌∷◌, ◌⊎◌, arith,
}
use vllm_cpp.Prelude.Loops.{for_range}
use vllm_cpp.Quantization.Fp8.{nearest, candidate_err, compute_e4m3_to_float}
use vllm_cpp.Quantization.Fp8.Nearest.{nearest_closest, has_sign}
use vllm_cpp.Quantization.Int4.{PackedInt4Tensor, cell, unpack_int4}
use vllm_cpp.Quantization.Int4.Packing.{pack, unpack_int4-pack}
use vllm_cpp.Quantization.Tensor.{
  QuantizedTensor, from_gptq, dequantize_row, tile_width, tile_size, quantized_matmul_transpose,
}
use vllm_cpp.Quantization.Matmul.{quantized_matmul_transpose-cell}
use vllm_cpp.Attention.{dot}
use vllm_cpp.Tensor.{Tensor, gptq, quantized, is_quantized_type, to_vector, tensor_row}
use vllm_cpp.Tensor.Rows.{to_vector-tensor_row}
use vllm_cpp.Engine.{matmul_transpose, rope_single}
use vllm_cpp.Engine.Products.{matmul_transpose-cell}
use vllm_cpp.Engine.Rope.{IsTurned, angle, rope_single_lem}
use vllm_cpp.Tests.Samples.{Sample, low, high, samples, samples-IsStrict}

nearest_closest_example :
    let decode : ℕ → Sample = compute_e4m3_to_float samples in
    let r = nearest samples decode 0 high 256 0 0 high in
    (r < 256)
    × (((has_sign r 0 ≡ true)
          × ((c : ℕ)
              → c < 256
              → has_sign c 0 ≡ true
              → samples.lt
                  (candidate_err samples decode high c)
                  (candidate_err samples decode high r)
                ≡ false))
        ⊎ ((r ≡ 0)
            × ((c : ℕ)
                → c < 256
                → has_sign c 0 ≡ true
                → samples.lt (candidate_err samples decode high c) high ≡ false)))
nearest_closest_example =
    nearest_closest samples samples-IsStrict (compute_e4m3_to_float samples) 0 high

-- Two rows of four weights.
abbrev weights : List ℕ
weights = 1 ∷ 2 ∷ 3 ∷ 4 ∷ 15 ∷ 14 ∷ 13 ∷ 12 ∷ []

abbrev tensor : PackedInt4Tensor Sample
tensor = record {
  qweight = pack weights;
  qzeros = 0x87 ∷ 0 ∷ [];
  scales = high ∷ high ∷ [];
  g_idx = [];
  in_features = 4;
  out_features = 2;
  group_size = 4;
  bits = 4;
  desc_act = false;
  is_awq = false;
}

cell_lt : (xs : List ℕ) (i : ℕ) → All (λ x. x < 2 ^ 4) xs → cell 0 xs i < 2 ^ 4
unfolding cell
cell_lt [] i h = omega arith
cell_lt (x ∷ xs) zero h = h.0
cell_lt (x ∷ xs) (suc i) h = cell_lt xs i h.1

weights_small : All (λ x. x < 2 ^ 4) weights
weights_small = (
  ltb→lt 1 16 refl,
  (
    ltb→lt 2 16 refl,
    (
      ltb→lt 3 16 refl,
      (
        ltb→lt 4 16 refl,
        (ltb→lt 15 16 refl, (ltb→lt 14 16 refl, (ltb→lt 13 16 refl, (ltb→lt 12 16 refl, tt)))),
      ),
    ),
  ),
)

unpack_int4-pack_example : unpack_int4 tensor 1 3 ≡ cell 0 weights 7
unpack_int4-pack_example =
    unpack_int4-pack tensor weights 2 1 3 refl refl (λ i. cell_lt weights i weights_small)

abbrev small : ℕ → Sample
small i = if ltb i 6 then low else high

abbrev buffer : ℕ → Sample
buffer i = high

abbrev packed_tensor : QuantizedTensor Sample
packed_tensor = from_gptq samples tensor (2 ∷ 4 ∷ [])

quantized_matmul_transpose-cell_example :
    quantized_matmul_transpose samples buffer 3 4 packed_tensor 2 buffer (2 * 2 + 1)
    ≡ for_range
        ((4 + tile_width - 1) / tile_width)
        0
        (λ tile s.
          let p = tile * tile_width in
          samples.add s (
            for_range
              (tile_size 4 p)
              0
              (λ t sum. samples.add sum (
                samples.mul
                  (buffer (2 * 4 + (p + t)))
                  ((dequantize_row samples packed_tensor 1).1 (p + t))))
              (samples.of_ℕ 0)))
        (samples.of_ℕ 0)
unfolding from_gptq dequantize_row cell
quantized_matmul_transpose-cell_example =
    quantized_matmul_transpose-cell samples buffer 3 4 packed_tensor 2 buffer 2 1 (omega arith)
      (omega arith) (omega arith)

matmul_transpose-cell_example :
    matmul_transpose samples buffer 3 4 small 2 buffer (1 * 2 + 1)
    ≡ dot samples 4 (λ p. buffer (1 * 4 + p)) (λ p. small (1 * 4 + p))
matmul_transpose-cell_example =
    matmul_transpose-cell samples buffer small buffer 3 4 2 1 1 (omega arith) (omega arith)

rope_single_lem_example :
    IsTurned samples small
      (rope_single samples small 8 4 5 buffer 2)
      (1 * 4 + 2 * 1)
      (angle samples buffer 2 5 1)
rope_single_lem_example =
    rope_single_lem samples small 8 4 5 buffer 2 1 1 (omega arith) (omega arith)

abbrev model_tensor : Tensor Sample
model_tensor = record {
  shape = 2 ∷ 4 ∷ [];
  data_ptr = none;
  precision = gptq;
  numel = 8;
  byte_size = 32;
  quant = some packed_tensor;
}

to_vector-tensor_row_example :
    ((to_vector samples model_tensor).0 ≡ 2 * 4)
    × ((tensor_row samples model_tensor 1).0 ≡ 4)
    × ((to_vector samples model_tensor).1 (1 * 4 + 2) ≡ (tensor_row samples model_tensor 1).1 2)
unfolding quantized from_gptq cell is_quantized_type
to_vector-tensor_row_example = to_vector-tensor_row samples model_tensor 2 4 1 2 (
    inr (record {
      q = packed_tensor;
      stands_for = refl;
      packed = inl refl;
      out_rows = refl;
      in_cols = refl;
      row_lt = omega arith;
      col_lt = omega arith;
    }))
