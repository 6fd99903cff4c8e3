-- ===== src/Quantization/Int4/Packing.antt =====
-- Two weights to a byte, row by row: the layout that `unpack_int4` reads.
use vllm_cpp.Prelude.{ℕ, zero, suc, ◌+◌, ◌*◌, ◌/◌, ◌%◌, ◌^◌, ◌<◌, ◌≡◌, List, [], ◌∷◌, arith}
use vllm_cpp.Quantization.Int4.{cell, int4x2, nibble, PackedInt4Tensor, unpack_int4}

-- The bytes of a list of weights, an even position in the low half.
unfoldable pub pack : List ℕ → List ℕ
pack [] = []
pack (a ∷ []) = int4x2 a 0 ∷ []
pack (a ∷ b ∷ rest) = int4x2 a b ∷ pack rest

nibble-pack :
    (weights : List ℕ) (k : ℕ)
    → ((i : ℕ) → cell 0 weights i < 2 ^ 4)
    → nibble k (cell 0 (pack weights) (k / 2)) ≡ cell 0 weights k
unfolding pack nibble int4x2 cell
nibble-pack [] k h = ground arith
nibble-pack (a ∷ []) zero h = let ha = h 0 in ground arith
nibble-pack (a ∷ []) (suc zero) h = omega arith
nibble-pack (a ∷ []) (suc (suc k)) h =
    let e : suc (suc k) / 2 ≡ suc (k / 2) = omega arith in rw e (ground arith)
nibble-pack (a ∷ b ∷ rest) zero h = let ha = h 0 in ground arith
nibble-pack (a ∷ b ∷ rest) (suc zero) h = let hb = h 1 in ground arith
nibble-pack (a ∷ b ∷ rest) (suc (suc k)) h =
    let e : suc (suc k) / 2 ≡ suc (k / 2) = omega arith in
    let e' : suc (suc k) % 2 ≡ k % 2 = omega arith in
    rw (e, e') (nibble-pack rest k (λ i. h (suc (suc i))))

-- Unpacking gives back the weights that were packed, in rows of an even width.
pub unpack_int4-pack :
    {Float : Type 0} (t : PackedInt4Tensor Float) (weights : List ℕ) (half row col : ℕ)
    → t.qweight ≡ pack weights
    → t.in_features ≡ half * 2
    → ((i : ℕ) → cell 0 weights i < 2 ^ 4)
    → unpack_int4 t row col ≡ cell 0 weights (row * t.in_features + col)
unfolding unpack_int4 nibble
unpack_int4-pack t weights half row col packed even small =
    let assoc : row * (half * 2) ≡ row * half * 2 = grind arith in
    let place : row * (half * 2 / 2) + col / 2 ≡ (row * (half * 2) + col) / 2 =
      let e : half * 2 / 2 ≡ half = omega arith in rw e (omega (arith, assoc)) in
    let side : col % 2 ≡ (row * (half * 2) + col) % 2 = omega (arith, assoc) in
    rw (packed, even, place, side) (nibble-pack weights (row * (half * 2) + col) small)
