-- ===== src/Quantization/Int4.antt =====
-- Packed INT4 weights: `PackedInt4Tensor` of src/quantization.h and its dequantization in
-- src/quantization.cpp. A byte, group index or scale that the vectors do not have, which the source
-- must not ask for, reads as zero.
pub mod Packing
pub mod Rows
use vllm_cpp.Prelude.{
  is_empty, ℕ, zero, suc, ◌+◌, ◌-◌, ◌*◌, ◌/◌, ◌%◌, ◌^◌, ◌==◌, leb, if◌then◌else◌, Bool, true, false,
  not, ◌&&◌, List, [], ◌∷◌,
}
use vllm_cpp.Prelude.Loops.{for_range, write_range}
use vllm_cpp.Float.{Floats}
use vllm_cpp.Quantization.Fp8.{minus}

unfoldable pub cell {ℓ} : {A : Type ℓ} → A → List A → ℕ → A
cell default [] i = default
cell default (x ∷ xs) zero = x
cell default (x ∷ xs) (suc i) = cell default xs i

-- The byte of `int4x2(lo, hi)`, and its two halves.
unfoldable pub int4x2 : ℕ → ℕ → ℕ
int4x2 lo hi = lo % 2 ^ 4 + hi % 2 ^ 4 * 2 ^ 4

unfoldable pub lo : ℕ → ℕ
lo packed = packed % 2 ^ 4

unfoldable pub hi : ℕ → ℕ
hi packed = packed / 2 ^ 4 % 2 ^ 4

pub record PackedInt4Tensor (Float : Type 0) : Type 0 where
  pub qweight : List ℕ
  pub qzeros : List ℕ
  pub scales : List Float
  pub g_idx : List ℕ
  pub in_features : ℕ
  pub out_features : ℕ
  pub group_size : ℕ
  pub bits : ℕ
  pub desc_act : Bool
  pub is_awq : Bool

unfoldable pub num_groups : {Float : Type 0} → PackedInt4Tensor Float → ℕ
num_groups t = (t.in_features + t.group_size - 1) / t.group_size

unfoldable pub qweight_bytes : {Float : Type 0} → PackedInt4Tensor Float → ℕ
qweight_bytes t = (t.in_features * t.out_features * t.bits + 7) / 8

-- One of two nibbles of a byte.
unfoldable pub nibble : ℕ → ℕ → ℕ
nibble i byte = if i % 2 == 0 then byte % 2 ^ 4 else byte / 2 ^ 4 % 2 ^ 4

unfoldable pub unpack_int4 : {Float : Type 0} → PackedInt4Tensor Float → ℕ → ℕ → ℕ
unfolding nibble
unpack_int4 t row col = nibble col (cell 0 t.qweight (row * (t.in_features / 2) + col / 2))

unfoldable pub unpack_zero : {Float : Type 0} → PackedInt4Tensor Float → ℕ → ℕ → ℕ
unfolding nibble
unpack_zero t group row = nibble row (cell 0 t.qzeros (group * (t.in_features / 2) + row / 2))

unfoldable pub group_of : {Float : Type 0} → PackedInt4Tensor Float → ℕ → ℕ
group_of t col =
    if t.desc_act && not (is_empty t.g_idx) then cell 0 t.g_idx col else col / t.group_size

module _ (fl : Floats) where
  open fl use {Float, of_ℕ, of_int, mul}

  -- ((int)w_int4 - (int)zero_int4) * scale
  unfoldable pub dequantize_int4_cell : PackedInt4Tensor Float → ℕ → ℕ → Float
  unfolding unpack_int4 unpack_zero group_of
  dequantize_int4_cell t row col =
      let group = group_of t col in
      let scale = cell (of_ℕ 0) t.scales (group * t.out_features + row) in
      mul (of_int (minus (unpack_int4 t row col) (unpack_zero t group row))) scale

  -- The row's cells; past the row's end the fill value.
  unfoldable pub dequantize_int4_row : PackedInt4Tensor Float → ℕ → ℕ → Float
  unfolding dequantize_int4_cell
  dequantize_int4_row t row = write_range 0 t.in_features (dequantize_int4_cell t row) (λ i. of_ℕ 0)

  -- The buffer `dst` after the call.
  unfoldable pub dequantize_int4_row_range :
      PackedInt4Tensor Float → ℕ → ℕ → ℕ → (ℕ → Float) → ℕ → Float
  unfolding dequantize_int4_cell
  dequantize_int4_row_range t row col_offset count dst =
      write_range 0 count
        (λ i.
          let col = col_offset + i in
          if leb t.in_features col then of_ℕ 0 else dequantize_int4_cell t row col)
        dst

  unfoldable pub dequantize_int4_full : PackedInt4Tensor Float → ℕ → Float
  unfolding dequantize_int4_row
  dequantize_int4_full t =
      for_range t.out_features 0
        (λ row. write_range (row * t.in_features) t.in_features (dequantize_int4_row t row))
        (λ i. of_ℕ 0)
