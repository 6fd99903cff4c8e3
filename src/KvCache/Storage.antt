-- ===== src/KvCache/Storage.antt =====
-- Typed access to a block's bytes: the conversions of src/kv_cache_manager.cpp over a whole row, the
-- float views `get_k` and `get_v`, and `write_kv` and `read_kv`. A pointer is a function of the
-- index. A byte outside a block's storage, which the source would have no right to touch, reads as
-- zero and is not written.
pub mod Bytes
pub mod Rows
pub mod RoundTrip
use vllm_cpp.Prelude.{
  ℕ, zero, suc, ◌+◌, ◌-◌, ◌*◌, ◌/◌, ◌%◌, ◌^◌, leb, ltb, if◌then◌else◌, Bool, true, false, List, [],
  ◌∷◌, ◌++◌, ℤ, pos, negsuc, below, Option, none, some, get_elem?, modify, length,
}
use mathlib.Core.Option
use vllm_cpp.Prelude.Loops.{write_range}
use vllm_cpp.Config.{block_size, KvDtype, fp32, fp16, fp8_e4m3}
use vllm_cpp.Float.{Floats}
use vllm_cpp.KvCache.Codec.{half_to_float, float_to_half}
use vllm_cpp.KvCache.Pool.{BlockPool, KvsBlock, kv_elem_size, get_raw}
use vllm_cpp.Quantization.Fp8.{compute_e4m3_to_float, compute_float_to_e4m3}

unfoldable pub byte_at : List ℕ → ℕ → ℕ
byte_at [] i = 0
byte_at (b ∷ bs) zero = b
byte_at (b ∷ bs) (suc i) = byte_at bs i

-- Bytes written from a position on.
unfoldable pub overwrite : List ℕ → ℕ → List ℕ → List ℕ
overwrite [] off bs = []
overwrite (x ∷ xs) zero [] = x ∷ xs
overwrite (x ∷ xs) zero (b ∷ bs) = b ∷ overwrite xs zero bs
overwrite (x ∷ xs) (suc off) bs = x ∷ overwrite xs off bs

unfoldable pub write_block : ℕ → List ℕ → List ℕ → KvsBlock → KvsBlock
write_block off k v b = record b {
  k_data = overwrite b.k_data off k;
  v_data = overwrite b.v_data off v;
}

module _ (fl : Floats) where
  open fl use {Float, of_bits, to_bits}

  -- One element from its bytes, little-endian.
  unfoldable pub decode_elem : KvDtype → (ℕ → ℕ) → Float
  decode_elem fp32 b = of_bits (b 0 + b 1 * 2 ^ 8 + b 2 * 2 ^ 16 + b 3 * 2 ^ 24)
  decode_elem fp16 b = of_bits (half_to_float (b 0 + b 1 * 2 ^ 8))
  decode_elem fp8_e4m3 b = compute_e4m3_to_float fl (b 0)

  unfoldable pub encode_elem : KvDtype → Float → List ℕ
  encode_elem fp32 x =
      let w = to_bits x in
      (w % 2 ^ 8) ∷ (w / 2 ^ 8 % 2 ^ 8) ∷ (w / 2 ^ 16 % 2 ^ 8) ∷ (w / 2 ^ 24 % 2 ^ 8) ∷ []
  encode_elem fp16 x = let h = float_to_half (to_bits x) in (h % 2 ^ 8) ∷ (h / 2 ^ 8 % 2 ^ 8) ∷ []
  encode_elem fp8_e4m3 x = compute_float_to_e4m3 fl x ∷ []

  -- `convert_kv_to_float`: element `i` of the row that begins at `off`.
  unfoldable pub convert_kv_to_float : KvDtype → List ℕ → ℕ → ℕ → Float
  unfolding kv_elem_size
  convert_kv_to_float dtype bytes off i =
      decode_elem dtype (λ b. byte_at bytes (off + i * kv_elem_size dtype + b))

  -- `convert_float_to_kv`: the bytes of the elements `i` to `i + n - 1`.
  unfoldable pub convert_float_to_kv : KvDtype → (ℕ → Float) → ℕ → ℕ → List ℕ
  unfolding encode_elem
  convert_float_to_kv dtype src i zero = []
  convert_float_to_kv dtype src i (suc n) =
      encode_elem dtype (src i) ++ convert_float_to_kv dtype src (i + 1) n

  -- The float views of a block's layer; `none` is the null pointer.
  unfoldable pub get_k : ℤ → ℤ → BlockPool → Option (ℕ → Float)
  get_k id layer p = elim (get_raw id layer p) [
    | none ↦ none
    | some (i, off) ↦
        Option.map (λ b. convert_kv_to_float p.kv_dtype b.k_data off) (get_elem? p.blocks i)
  ]

  unfoldable pub get_v : ℤ → ℤ → BlockPool → Option (ℕ → Float)
  get_v id layer p = elim (get_raw id layer p) [
    | none ↦ none
    | some (i, off) ↦
        Option.map (λ b. convert_kv_to_float p.kv_dtype b.v_data off) (get_elem? p.blocks i)
  ]

  unfoldable pub write_kv : ℤ → ℤ → ℤ → (ℕ → Float) → (ℕ → Float) → ℕ → BlockPool → BlockPool
  unfolding write_block
  write_kv id layer pos_in_block k v kv_dim p = elim (below pos_in_block block_size) [
    | none ↦ p
    | some t ↦ elim (get_raw id layer p) [
      | none ↦ p
      | some (i, off) ↦
          let at = off + t * kv_dim * kv_elem_size p.kv_dtype in
          record p {
            blocks = modify p.blocks i (
                write_block at (convert_float_to_kv p.kv_dtype k 0 kv_dim)
                  (convert_float_to_kv p.kv_dtype v 0 kv_dim));
          }
    ]
  ]

  -- The two output buffers after the call.
  unfoldable pub read_kv :
      ℤ → ℤ → ℤ → (ℕ → Float) → (ℕ → Float) → ℕ → BlockPool → (ℕ → Float) × (ℕ → Float)
  read_kv id layer pos_in_block k_out v_out kv_dim p = elim (below pos_in_block block_size) [
    | none ↦ (k_out, v_out)
    | some t ↦ elim (get_raw id layer p) [
      | none ↦ (k_out, v_out)
      | some (i, off) ↦ elim (get_elem? p.blocks i) [
        | none ↦ (k_out, v_out)
        | some b ↦
            let at = off + t * kv_dim * kv_elem_size p.kv_dtype in
            (
              write_range 0 kv_dim (convert_kv_to_float p.kv_dtype b.k_data at) k_out,
              write_range 0 kv_dim (convert_kv_to_float p.kv_dtype b.v_data at) v_out,
            )
      ]
    ]
  ]
