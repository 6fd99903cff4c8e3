-- ===== src/KvCache/Storage/RoundTrip.antt =====
-- `write_kv` followed by `read_kv`, at the same place and at another one.
use vllm_cpp.Prelude.{
  ℕ, ◌<◌, ◌≡◌, ◌≢◌, refl, ◌∙◌, ltb, if◌then◌else◌, ◌⊎◌, inl, inr, pos, modify,
  get_elem?-modify_self, get_elem?-modify_ne,
}
use vllm_cpp.Prelude.Loops.{write_row_cell, write_row_eq}
use vllm_cpp.Config.{block_size}
use vllm_cpp.Float.{Floats}
use vllm_cpp.KvCache.Pool.{BlockPool}
use vllm_cpp.KvCache.Storage.{
  overwrite, convert_kv_to_float, convert_float_to_kv, write_block, write_kv, read_kv,
}
use vllm_cpp.KvCache.Storage.Bytes.{length-overwrite, stored}
use vllm_cpp.KvCache.Storage.Rows.{IsPlace, row_at, write_kv_lem, read_kv_lem, same_row, other_row}

module _ (fl : Floats) where
  open fl use {Float}

  -- The pool after a write at a place.
  abbrev written : BlockPool → ℕ → ℕ → ℕ → (ℕ → Float) → (ℕ → Float) → BlockPool
  written p i l t k v = record p {
    blocks = modify p.blocks i (
        write_block (row_at p l t) (convert_float_to_kv fl p.kv_dtype k 0 p.kv_dim)
          (convert_float_to_kv fl p.kv_dtype v 0 p.kv_dim));
  }

  module _ (p : BlockPool) (i l t : ℕ) (k v : ℕ → Float) (h : IsPlace p i l t) where
    same_block :
        (l' t' : ℕ) → l' < p.num_layers → t' < block_size → IsPlace (written p i l t k v) i l' t'
    unfolding write_block
    same_block l' t' hl ht = record {
      block =
          write_block (row_at p l t) (convert_float_to_kv fl p.kv_dtype k 0 p.kv_dim)
            (convert_float_to_kv fl p.kv_dtype v 0 p.kv_dim) h.block;
      at = get_elem?-modify_self p.blocks i _ h.at;
      k_size = length-overwrite h.block.k_data _ _ ∙ h.k_size;
      v_size = length-overwrite h.block.v_data _ _ ∙ h.v_size;
      layer = hl;
      token = ht;
    }

    other_block :
        (i' l' t' : ℕ) → i ≢ i' → IsPlace p i' l' t' → IsPlace (written p i l t k v) i' l' t'
    other_block i' l' t' ne g = record {
      block = g.block;
      at = get_elem?-modify_ne p.blocks i i' _ ne ∙ g.at;
      k_size = g.k_size;
      v_size = g.v_size;
      layer = g.layer;
      token = g.token;
    }

  -- A token's row that is written and read back comes out as storage leaves it, element by
  -- element; past the row the reader's buffers are untouched.
  pub read_kv-write_kv :
      (p : BlockPool) (i l t : ℕ) (k v k_out v_out : ℕ → Float) (j : ℕ)
      → IsPlace p i l t
      → let q = write_kv fl (pos i) (pos l) (pos t) k v p.kv_dim p in
        let r = read_kv fl (pos i) (pos l) (pos t) k_out v_out p.kv_dim q in
        (r.0 j ≡ (if ltb j p.kv_dim then stored fl p.kv_dtype (k j) else k_out j))
        × (r.1 j ≡ (if ltb j p.kv_dim then stored fl p.kv_dtype (v j) else v_out j))
  unfolding write_block convert_kv_to_float same_block overwrite
  read_kv-write_kv p i l t k v k_out v_out j h =
      let g = same_block p i l t k v h l t h.layer h.token in
      rw (write_kv_lem fl p i l t h k v, read_kv_lem fl (written p i l t k v) i l t g k_out v_out)
        (
          write_row_cell p.kv_dim _ _ k_out j (
              same_row fl p.kv_dtype p.kv_dim p.num_layers l t h.block.k_data k h.k_size h.layer
                h.token),
          write_row_cell p.kv_dim _ _ v_out j (
              same_row fl p.kv_dtype p.kv_dim p.num_layers l t h.block.v_data v h.v_size h.layer
                h.token),
        )

  apart_lem :
      (p : BlockPool) (i l t l' t' : ℕ) (k v k_out v_out : ℕ → Float) (j : ℕ)
      → IsPlace p i l t
      → IsPlace p i l' t'
      → (l ≢ l') ⊎ (t ≢ t')
      → let q = write_kv fl (pos i) (pos l) (pos t) k v p.kv_dim p in
        let r = read_kv fl (pos i) (pos l') (pos t') k_out v_out p.kv_dim in
        ((r q).0 j ≡ (r p).0 j) × ((r q).1 j ≡ (r p).1 j)
  unfolding write_block convert_kv_to_float same_block overwrite
  apart_lem p i l t l' t' k v k_out v_out j h h' apart =
      let g = same_block p i l t k v h l' t' h'.layer h'.token in
      let e : h.block ≡ h'.block = cc in
      rw
        (
          write_kv_lem fl p i l t h k v,
          read_kv_lem fl (written p i l t k v) i l' t' g k_out v_out,
          read_kv_lem fl p i l' t' h' k_out v_out,
          ← e,
        )
        (
          write_row_eq p.kv_dim _ _ k_out j (λ m.
              other_row fl p.kv_dtype p.kv_dim p.num_layers l t h.block.k_data k h.k_size h.layer
                h.token l' t' m h'.token apart),
          write_row_eq p.kv_dim _ _ v_out j (λ m.
              other_row fl p.kv_dtype p.kv_dim p.num_layers l t h.block.v_data v h.v_size h.layer
                h.token l' t' m h'.token apart),
        )

  -- A write leaves what is read at every other place as it was: another block, or another layer
  -- or token of the same block.
  pub read_kv-write_kv_ne :
      (p : BlockPool) (i l t i' l' t' : ℕ) (k v k_out v_out : ℕ → Float) (j : ℕ)
      → IsPlace p i l t
      → IsPlace p i' l' t'
      → (i ≢ i') ⊎ ((i ≡ i') × ((l ≢ l') ⊎ (t ≢ t')))
      → let q = write_kv fl (pos i) (pos l) (pos t) k v p.kv_dim p in
        let r = read_kv fl (pos i') (pos l') (pos t') k_out v_out p.kv_dim in
        ((r q).0 j ≡ (r p).0 j) × ((r q).1 j ≡ (r p).1 j)
  unfolding write_block other_block
  read_kv-write_kv_ne p i l t i' l' t' k v k_out v_out j h h' (inl ne) =
      let g = other_block p i l t k v h i' l' t' ne h' in
      rw
        (
          write_kv_lem fl p i l t h k v,
          read_kv_lem fl (written p i l t k v) i' l' t' g k_out v_out,
          read_kv_lem fl p i' l' t' h' k_out v_out,
        )
        (refl, refl)
  read_kv-write_kv_ne p i l t i' l' t' k v k_out v_out j h h' (inr (e, apart)) =
      let g : IsPlace p i l' t' = rw e h' in
      rw (← e) (apart_lem p i l t l' t' k v k_out v_out j h g apart)
