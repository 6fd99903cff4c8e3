-- ===== src/Tensor.antt =====
-- `Tensor` of src/model.h: a matrix of floats, or one that a quantized tensor stands for. Memory on
-- a GPU is left out.
pub mod Rows
use vllm_cpp.Prelude.{
  ℕ, ◌+◌, ◌*◌, ◌/◌, ◌==◌, if◌then◌else◌, Bool, true, false, List, Option, none, some,
}
use vllm_cpp.Float.{Floats}
use vllm_cpp.Quantization.Int4.{cell}
use vllm_cpp.Quantization.Tensor.{
  QuantizedTensor, TensorType, fp32, fp16, to_float_vector, dequantize_row,
}

pub data Precision : Type 0 where
  f32 f16 bf16 f8_e4m3 gptq awq : Precision

pub record Tensor (Float : Type 0) : Type 0 where
  pub shape : List ℕ
  pub data_ptr : Option (ℕ → Float)
  pub precision : Precision
  pub numel : ℕ
  pub byte_size : ℕ
  pub quant : Option (QuantizedTensor Float)

unfoldable pub is_quantized_type : TensorType → Bool
is_quantized_type fp32 = false
is_quantized_type fp16 = false
is_quantized_type _ = true

-- The quantized tensor behind a tensor, when `quant && quant->is_quantized()`.
unfoldable pub quantized : {Float : Type 0} → Tensor Float → Option (QuantizedTensor Float)
unfolding is_quantized_type
quantized t = elim (t.quant) [
  | none ↦ none
  | some q ↦ if is_quantized_type q.type then some q else none
]

unfoldable pub is_quantized : {Float : Type 0} → Tensor Float → Bool
unfolding quantized
is_quantized t = elim (quantized t) [ none ↦ false | some q ↦ true ]

abbrev precision_size : Precision → ℕ
precision_size f16 = 2
precision_size bf16 = 2
precision_size f8_e4m3 = 1
precision_size _ = 4

unfoldable pub elem_size : {Float : Type 0} → Tensor Float → ℕ
unfolding is_quantized
elem_size t = if is_quantized t then 1 else precision_size t.precision

module _ (fl : Floats) where
  open fl use {Float, of_ℕ}

  unfoldable pub allocate_float : ℕ → Tensor Float → Tensor Float
  allocate_float n t = record t { numel = n; byte_size = n * 4; data_ptr = some (λ i. of_ℕ 0) }

  -- The size of the vector and its cells.
  unfoldable pub to_vector : Tensor Float → ℕ × (ℕ → Float)
  unfolding quantized
  to_vector t = elim (quantized t) [
    | some q ↦ to_float_vector fl q
    | none ↦ elim (t.data_ptr) [
      | none ↦ (0, λ i. of_ℕ 0)
      | some f ↦ if t.numel == 0 then (0, λ i. of_ℕ 0) else (t.numel, f)
    ]
  ]

  -- `Tensor::dequantize_row`. A tensor without data, which must not be read, has zeros.
  unfoldable pub tensor_row : Tensor Float → ℕ → ℕ × (ℕ → Float)
  unfolding quantized
  tensor_row t row = elim (quantized t) [
    | some q ↦ dequantize_row fl q row
    | none ↦
        let cols = t.numel / cell 0 t.shape 0 in
        (cols, λ i. elim (t.data_ptr) [ none ↦ of_ℕ 0 | some f ↦ f (row * cols + i) ])
  ]
