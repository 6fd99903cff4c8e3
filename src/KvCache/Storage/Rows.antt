-- ===== src/KvCache/Storage/Rows.antt =====
-- Writing and reading one token's row of keys and values.
use vllm_cpp.Prelude.{
  ℕ, zero, suc, ◌+◌, ◌*◌, ◌<◌, ◌≤◌, ◌≡◌, ◌≢◌, refl, ap, ◌∙◌, List, [], ◌∷◌, length, arith, ◌⊎◌, inl,
  inr, pos, below, some, get_elem?, modify, lt→ltb,
}
use vllm_cpp.Prelude.Loops.{write_range}
use vllm_cpp.Config.{block_size, KvDtype}
use vllm_cpp.Float.{Floats}
use vllm_cpp.KvCache.Pool.{BlockPool, KvsBlock, kv_elem_size, layer_bytes, get_raw}
use vllm_cpp.KvCache.Storage.{
  byte_at, overwrite, encode_elem, convert_kv_to_float, convert_float_to_kv, write_block, write_kv,
  read_kv,
}
use vllm_cpp.KvCache.Storage.Bytes.{
  byte_at-overwrite_in, byte_at-overwrite_out, byte_at-convert, length-convert, decode-encode,
  decode_eq, stored,
}

below_pos : (i n : ℕ) → i < n → below (pos i) n ≡ some i
below_pos i n h = rw (lt→ltb i n h) refl

pub get_elem?_bound {ℓ} :
    {A : Type ℓ} (xs : List A) (i : ℕ) (x : A) → get_elem? xs i ≡ some x → i < length xs
get_elem?_bound [] i x h = absurd (cc)
get_elem?_bound (y ∷ xs) zero x h = omega arith
get_elem?_bound (y ∷ xs) (suc i) x h = omega (arith, get_elem?_bound xs i x h)

-- A place in the cache: a block in range, one of its layers, one of its tokens.
pub record IsPlace (p : BlockPool) (i l t : ℕ) : Type 0 where
  pub block : KvsBlock
  pub at : get_elem? p.blocks i ≡ some block
  pub k_size : length block.k_data ≡ p.num_layers * layer_bytes p
  pub v_size : length block.v_data ≡ p.num_layers * layer_bytes p
  pub layer : l < p.num_layers
  pub token : t < block_size

-- Where the token's row begins.
abbrev pub row_at : BlockPool → ℕ → ℕ → ℕ
row_at p l t = l * layer_bytes p + t * p.kv_dim * kv_elem_size p.kv_dtype

pub get_raw_lem :
    (p : BlockPool) (i l : ℕ)
    → i < length p.blocks
    → l < p.num_layers
    → get_raw (pos i) (pos l) p ≡ some (i, l * layer_bytes p)
unfolding get_raw
get_raw_lem p i l hi hl =
    rw (below_pos i (length p.blocks) hi, get_raw) (rw (below_pos l p.num_layers hl) refl)

module _ (fl : Floats) where
  open fl use {Float}

  module _ (p : BlockPool) (i l t : ℕ) (h : IsPlace p i l t) where
    pub write_kv_lem :
        (k v : ℕ → Float)
        → write_kv fl (pos i) (pos l) (pos t) k v p.kv_dim p ≡ record p {
          blocks = modify p.blocks i (
              write_block
                (row_at p l t)
                (convert_float_to_kv fl p.kv_dtype k 0 p.kv_dim)
                (convert_float_to_kv fl p.kv_dtype v 0 p.kv_dim));
        }
    unfolding write_kv
    write_kv_lem k v =
        rw
          (
            below_pos t block_size h.token,
            get_raw_lem p i l (get_elem?_bound p.blocks i h.block h.at) h.layer,
            write_kv,
          )
          refl

    pub read_kv_lem :
        (k_out v_out : ℕ → Float)
        → read_kv fl (pos i) (pos l) (pos t) k_out v_out p.kv_dim p ≡ (
          write_range 0 p.kv_dim
              (convert_kv_to_float fl p.kv_dtype h.block.k_data (row_at p l t))
              k_out,
          write_range 0 p.kv_dim
              (convert_kv_to_float fl p.kv_dtype h.block.v_data (row_at p l t))
              v_out,
        )
    unfolding read_kv
    read_kv_lem k_out v_out =
        rw
          (
            below_pos t block_size h.token,
            get_raw_lem p i l (get_elem?_bound p.blocks i h.block h.at) h.layer,
            read_kv,
          )
          (rw (h.at) refl)

mul_mono : (a b c : ℕ) → a ≤ b → a * c ≤ b * c
mul_mono a b c h = grind arith

-- The byte rows of two tokens of a block do not meet.
rows_apart :
    (row l t l' t' : ℕ)
    → t < block_size
    → t' < block_size
    → (l ≢ l') ⊎ (t ≢ t')
    → (l * (16 * row) + t * row + row ≤ l' * (16 * row) + t' * row)
      ⊎ (l' * (16 * row) + t' * row + row ≤ l * (16 * row) + t * row)
rows_apart row l t l' t' ht ht' h = elim (order (16 * l + t) (16 * l' + t') (distinct h)) [
  | inl e ↦ inl (omega (arith, mul_mono (16 * l + t + 1) (16 * l' + t') row e))
  | inr e ↦ inr (omega (arith, mul_mono (16 * l' + t' + 1) (16 * l + t) row e))
]
  where
    order : (a b : ℕ) → a ≢ b → (a + 1 ≤ b) ⊎ (b + 1 ≤ a)
    order a b ne = grind arith

    distinct : (l ≢ l') ⊎ (t ≢ t') → 16 * l + t ≢ 16 * l' + t'
    distinct (inl ne) = λ e. ne (omega arith)
    distinct (inr ne) = λ e. ne (omega arith)

-- A row lies inside its block's bytes.
row_fits :
    (row l t n : ℕ) → l < n → t < block_size → l * (16 * row) + t * row + row ≤ n * (16 * row)
row_fits row l t n hl ht = omega (arith, mul_mono (16 * l + t + 1) (16 * n) row (omega arith))

-- An element that lies in a row.
elem_fits : (i n e b : ℕ) → i < n → b < e → i * e + b + 1 ≤ n * e
elem_fits i n e b hi hb = omega (arith, mul_mono (i + 1) n e (omega arith))

module _ (fl : Floats) where
  open fl use {Float}

  -- A converted row in a list of bytes: its own elements read back, the elements of another row
  -- are as before.
  module _ (d : KvDtype) (kv_dim n l t : ℕ) (bytes : List ℕ) (src : ℕ → Float)
      (size : length bytes ≡ n * (block_size * kv_dim * kv_elem_size d)) (hl : l < n)
      (ht : t < block_size) where
    abbrev at : ℕ
    at = l * (block_size * kv_dim * kv_elem_size d) + t * kv_dim * kv_elem_size d

    abbrev row : List ℕ
    row = convert_float_to_kv fl d src 0 kv_dim

    pub same_row :
        (j : ℕ)
        → j < kv_dim
        → convert_kv_to_float fl d (overwrite bytes at row) at j ≡ stored fl d (src j)
    unfolding convert_kv_to_float
    same_row j hj = decode-encode fl d (src j) _ λ b hb.
        let e = kv_elem_size d in
        let inside = elem_fits j kv_dim e b hj hb in
        let fits = row_fits (kv_dim * e) l t n hl ht in
        let len = length-convert fl d src 0 kv_dim in
        ap (byte_at (overwrite bytes at row)) (omega arith)
        ∙ byte_at-overwrite_in bytes at row (j * e + b) (omega arith) (omega arith)
        ∙ byte_at-convert fl d src 0 kv_dim j b hj hb
        ∙ ap (λ (m : ℕ). byte_at (encode_elem fl d (src m)) b) (omega arith)

    pub other_row :
        (l' t' j : ℕ)
        → t' < block_size
        → (l ≢ l') ⊎ (t ≢ t')
        → j < kv_dim
        → let at' = l' * (block_size * kv_dim * kv_elem_size d) + t' * kv_dim * kv_elem_size d in
          convert_kv_to_float fl d (overwrite bytes at row) at' j
          ≡ convert_kv_to_float fl d bytes at' j
    unfolding convert_kv_to_float
    other_row l' t' j ht' apart hj = decode_eq fl d _ _ λ b hb.
        let e = kv_elem_size d in
        let inside = elem_fits j kv_dim e b hj hb in
        let len = length-convert fl d src 0 kv_dim in
        byte_at-overwrite_out bytes at row _
          (elim (rows_apart (kv_dim * e) l t l' t' ht ht' apart) [
            | inl before ↦ inr (omega arith)
            | inr after ↦ inl (omega arith)
          ])
