-- ===== src/KvCache/Storage/Bytes.antt =====
-- Rows of bytes: what a write changes, and what comes back of an element.
use vllm_cpp.Prelude.{
  ℕ, zero, suc, ◌+◌, ◌*◌, ◌^◌, ◌<◌, ◌≤◌, ◌≡◌, refl, ap, ◌∙◌, List, [], ◌∷◌, ◌++◌, length,
  length-append, arith, ◌⊎◌,
}
use vllm_cpp.Config.{KvDtype, fp32, fp16, fp8_e4m3}
use vllm_cpp.Float.{Floats}
use vllm_cpp.KvCache.Codec.{float_to_half, half_to_float, half_bits}
use vllm_cpp.KvCache.Pool.{kv_elem_size}
use vllm_cpp.KvCache.Storage.{byte_at, overwrite, decode_elem, encode_elem, convert_float_to_kv}
use vllm_cpp.Quantization.Fp8.{compute_e4m3_to_float, compute_float_to_e4m3}

pub length-overwrite :
    (xs : List ℕ) (off : ℕ) (bs : List ℕ) → length (overwrite xs off bs) ≡ length xs
unfolding overwrite
length-overwrite [] off bs = refl
length-overwrite (x ∷ xs) zero [] = refl
length-overwrite (x ∷ xs) zero (b ∷ bs) = ap suc (length-overwrite xs zero bs)
length-overwrite (x ∷ xs) (suc off) bs = ap suc (length-overwrite xs off bs)

pub byte_at-overwrite_in :
    (xs : List ℕ) (off : ℕ) (bs : List ℕ) (i : ℕ)
    → i < length bs
    → off + length bs ≤ length xs
    → byte_at (overwrite xs off bs) (off + i) ≡ byte_at bs i
unfolding overwrite byte_at
byte_at-overwrite_in [] off [] i h fits = elim h [ ]
byte_at-overwrite_in [] off (b ∷ bs) i h fits = absurd (omega arith)
byte_at-overwrite_in (x ∷ xs) zero [] i h fits = elim h [ ]
byte_at-overwrite_in (x ∷ xs) zero (b ∷ bs) zero h fits = refl
byte_at-overwrite_in (x ∷ xs) zero (b ∷ bs) (suc i) h fits =
    let e : zero + i ≡ i = omega arith in
    let e' : zero + suc i ≡ suc i = omega arith in
    rw e' (rw e at (byte_at-overwrite_in xs zero bs i (omega arith) (omega arith)))
byte_at-overwrite_in (x ∷ xs) (suc off) bs i h fits =
    let e : suc off + i ≡ suc (off + i) = omega arith in
    rw e (byte_at-overwrite_in xs off bs i h (omega arith))

pub byte_at-overwrite_out :
    (xs : List ℕ) (off : ℕ) (bs : List ℕ) (i : ℕ)
    → (i < off) ⊎ (off + length bs ≤ i)
    → byte_at (overwrite xs off bs) i ≡ byte_at xs i
unfolding overwrite byte_at
byte_at-overwrite_out [] off bs i h = refl
byte_at-overwrite_out (x ∷ xs) zero [] i h = refl
byte_at-overwrite_out (x ∷ xs) zero (b ∷ bs) zero h = absurd (ground arith)
byte_at-overwrite_out (x ∷ xs) zero (b ∷ bs) (suc i) h =
    byte_at-overwrite_out xs zero bs i (ground arith)
byte_at-overwrite_out (x ∷ xs) (suc off) bs zero h = refl
byte_at-overwrite_out (x ∷ xs) (suc off) bs (suc i) h =
    byte_at-overwrite_out xs off bs i (ground arith)

byte_at-append_left : (xs ys : List ℕ) (i : ℕ) → i < length xs → byte_at (xs ++ ys) i ≡ byte_at xs i
unfolding byte_at
byte_at-append_left [] ys i h = elim h [ ]
byte_at-append_left (x ∷ xs) ys zero h = refl
byte_at-append_left (x ∷ xs) ys (suc i) h = byte_at-append_left xs ys i (omega arith)

byte_at-append_right :
    (xs ys : List ℕ) (i j : ℕ) → i ≡ length xs + j → byte_at (xs ++ ys) i ≡ byte_at ys j
unfolding byte_at
byte_at-append_right [] ys i j h = ap (byte_at ys) (omega arith)
byte_at-append_right (x ∷ xs) ys zero j h = absurd (omega arith)
byte_at-append_right (x ∷ xs) ys (suc i) j h = byte_at-append_right xs ys i j (omega arith)

float_to_half_lt : (w : ℕ) → float_to_half w < 2 ^ 16
unfolding float_to_half half_bits
float_to_half_lt w = ground arith

module _ (fl : Floats) where
  open fl use {Float, of_bits, to_bits, of_bits-to_bits, to_bits_lt}

  pub length-encode_elem : (d : KvDtype) (x : Float) → length (encode_elem fl d x) ≡ kv_elem_size d
  unfolding encode_elem kv_elem_size
  length-encode_elem fp32 x = refl
  length-encode_elem fp16 x = refl
  length-encode_elem fp8_e4m3 x = refl

  pub length-convert :
      (d : KvDtype) (src : ℕ → Float) (i n : ℕ)
      → length (convert_float_to_kv fl d src i n) ≡ n * kv_elem_size d
  unfolding convert_float_to_kv
  length-convert d src i zero = omega arith
  length-convert d src i (suc n) = omega (
    arith,
    length-append (encode_elem fl d (src i)) (convert_float_to_kv fl d src (i + 1) n),
    length-encode_elem d (src i),
    length-convert d src (i + 1) n,
  )

  -- Byte `b` of element `j` of a converted row.
  pub byte_at-convert :
      (d : KvDtype) (src : ℕ → Float) (i n j b : ℕ)
      → j < n
      → b < kv_elem_size d
      → byte_at (convert_float_to_kv fl d src i n) (j * kv_elem_size d + b)
        ≡ byte_at (encode_elem fl d (src (i + j))) b
  unfolding convert_float_to_kv
  byte_at-convert d src i zero j b hj hb = elim hj [ ]
  byte_at-convert d src i (suc n) zero b hj hb =
      let e : zero * kv_elem_size d + b ≡ b = omega arith in
      let e' : i + zero ≡ i = omega arith in
      rw (e, e') (byte_at-append_left _ _ b (omega (arith, length-encode_elem d (src i))))
  byte_at-convert d src i (suc n) (suc j) b hj hb =
      let e : i + suc j ≡ i + 1 + j = omega arith in
      rw e (
        byte_at-append_right (encode_elem fl d (src i)) _ _ (j * kv_elem_size d + b)
          (omega (arith, length-encode_elem d (src i)))
        ∙ byte_at-convert d src (i + 1) n j b (omega arith) hb)

  -- What an element becomes in storage.
  unfoldable pub stored : KvDtype → Float → Float
  stored fp32 x = x
  stored fp16 x = of_bits (half_to_float (float_to_half (to_bits x)))
  stored fp8_e4m3 x = compute_e4m3_to_float fl (compute_float_to_e4m3 fl x)

  pub decode-encode :
      (d : KvDtype) (x : Float) (bytes : ℕ → ℕ)
      → ((b : ℕ) → b < kv_elem_size d → bytes b ≡ byte_at (encode_elem fl d x) b)
      → decode_elem fl d bytes ≡ stored d x
  unfolding decode_elem encode_elem stored kv_elem_size byte_at
  decode-encode fp32 x bytes h =
      ap of_bits (
        omega (
          arith,
          to_bits_lt x,
          h 0 (omega arith),
          h 1 (omega arith),
          h 2 (omega arith),
          h 3 (omega arith),
        ))
      ∙ of_bits-to_bits x
  decode-encode fp16 x bytes h =
      ap (λ (k : ℕ). of_bits (half_to_float k))
        (omega (arith, float_to_half_lt (to_bits x), h 0 (omega arith), h 1 (omega arith)))
  decode-encode fp8_e4m3 x bytes h = ap (compute_e4m3_to_float fl) (h 0 (omega arith))

  -- An element is decided by its own bytes.
  pub decode_eq :
      (d : KvDtype) (f g : ℕ → ℕ)
      → ((b : ℕ) → b < kv_elem_size d → f b ≡ g b)
      → decode_elem fl d f ≡ decode_elem fl d g
  unfolding decode_elem kv_elem_size
  decode_eq fp32 f g h =
      ap of_bits
        (omega (arith, h 0 (omega arith), h 1 (omega arith), h 2 (omega arith), h 3 (omega arith)))
  decode_eq fp16 f g h =
      ap (λ (k : ℕ). of_bits (half_to_float k))
        (omega (arith, h 0 (omega arith), h 1 (omega arith)))
  decode_eq fp8_e4m3 f g h = ap (compute_e4m3_to_float fl) (h 0 (omega arith))
