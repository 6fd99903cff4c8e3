-- ===== src/Tests/Caches.antt =====
-- The properties of the KV cache, of attention over it and of the number formats, at concrete inputs.
use vllm_cpp.Prelude.{
  ℕ, ◌+◌, ◌*◌, ◌/◌, ◌<◌, ◌≡◌, refl, ltb, ltb→lt, if◌then◌else◌, true, List, [], ◌∷◌, pos, ◌⊎◌, inl,
  inr, some, Bool-cases, replicate, arith, get_elem?,
}
use vllm_cpp.Config.{fp8_e4m3}
use vllm_cpp.KvCache.Pool.{
  BlockPool, KvsBlock, new_pool, new_blocks, PoolCall, call_alloc, call_free, call_deref, call_copy,
  calls, kv_elem_size, get_raw,
}
use vllm_cpp.KvCache.Pool.History.{
  IsWellFormed, calls-IsWellFormed, new_pool-IsWellFormed, alloc_cases, Refuses, Grants,
}
use vllm_cpp.KvCache.Manager.{alloc_blocks}
use vllm_cpp.KvCache.Manager.Ownership.{IsExclusive, Takes, alloc_blocks-Takes}
use vllm_cpp.KvCache.Codec.{half_bits, half_to_float, float_to_half}
use vllm_cpp.KvCache.Codec.Half.{round_trip, float_to_half-half_to_float}
use vllm_cpp.KvCache.Storage.{write_kv, read_kv, get_k, get_v, convert_kv_to_float}
use vllm_cpp.KvCache.Storage.Bytes.{stored}
use vllm_cpp.KvCache.Storage.Rows.{IsPlace}
use vllm_cpp.KvCache.Storage.RoundTrip.{read_kv-write_kv, read_kv-write_kv_ne}
use vllm_cpp.Scheduler.State.{new_scheduler}
use vllm_cpp.Scheduler.Ownership.History.{new_scheduler-Invariant}
use vllm_cpp.Attention.{paged_attention, compute_attention, read_kv_prefill}
use vllm_cpp.Attention.Gather.{IsCached, read_kv_prefill_lem, k_row, v_row}
use vllm_cpp.Attention.Agreement.{paged_attention-read_kv_prefill}
use vllm_cpp.Tests.Samples.{Sample, low, high, samples}

-- Two blocks of one layer, two values to a token.
abbrev two_blocks : BlockPool
two_blocks = new_pool 2 1 2 fp8_e4m3

abbrev pool_calls : List PoolCall
pool_calls =
    call_alloc
    ∷ call_alloc
    ∷ call_copy (pos 1) (pos 0)
    ∷ call_free (pos 0)
    ∷ call_deref (pos 1)
    ∷ []

calls-IsWellFormed_example : IsWellFormed (calls pool_calls two_blocks)
calls-IsWellFormed_example =
    calls-IsWellFormed pool_calls two_blocks (tt, (tt, (tt, (tt, (tt, tt)))))
      (new_pool-IsWellFormed 2 1 2 fp8_e4m3)

alloc_cases_example : Refuses two_blocks ⊎ ((i : ℕ) × Grants two_blocks i)
alloc_cases_example = alloc_cases two_blocks (new_pool-IsWellFormed 2 1 2 fp8_e4m3)

two_blocks-IsExclusive : IsExclusive two_blocks
unfolding new_scheduler
two_blocks-IsExclusive = (new_scheduler-Invariant 1 100 1 2 2 0 fp8_e4m3).accounts.exclusive

alloc_blocks-Takes_example : Takes 2 [] two_blocks (alloc_blocks 2 two_blocks)
alloc_blocks-Takes_example = alloc_blocks-Takes 2 two_blocks two_blocks-IsExclusive

float_to_half-half_to_float_example :
    float_to_half (half_to_float (half_bits 1 17 300)) ≡ round_trip 1 17 300
float_to_half-half_to_float_example =
    float_to_half-half_to_float 1 17 300 (omega arith) (omega arith) (omega arith)

abbrev bytes : List ℕ
bytes = replicate 32 0

abbrev empty_block : ℕ → KvsBlock
empty_block i = record {
  block_id = i;
  ref_count = 0;
  free = true;
  dtype = fp8_e4m3;
  k_data = bytes;
  v_data = bytes;
}

place :
    (i t : ℕ)
    → (h : get_elem? two_blocks.blocks i ≡ some (empty_block i)) → t < 16
    → IsPlace two_blocks i 0 t
unfolding new_pool new_blocks kv_elem_size
place i t h lt = record {
  block = empty_block i;
  at = h;
  k_size = refl;
  v_size = refl;
  layer = omega arith;
  token = lt;
}

block_at : get_elem? two_blocks.blocks 1 ≡ some (empty_block 1)
unfolding new_pool new_blocks kv_elem_size
block_at = refl

abbrev row : ℕ → Sample
row i = if ltb 0 i then high else low

read_kv-write_kv_example :
    let q = write_kv samples (pos 1) (pos 0) (pos 5) row row 2 two_blocks in
    let r = read_kv samples (pos 1) (pos 0) (pos 5) (λ i. low) (λ i. low) 2 q in
    (r.0 1 ≡ (if ltb 1 2 then stored samples fp8_e4m3 (row 1) else low))
    × (r.1 1 ≡ (if ltb 1 2 then stored samples fp8_e4m3 (row 1) else low))
unfolding new_pool
read_kv-write_kv_example =
    read_kv-write_kv samples two_blocks 1 0 5 row row (λ i. low) (λ i. low) 1
      (place 1 5 block_at (omega arith))

read_kv-write_kv_ne_example :
    let q = write_kv samples (pos 1) (pos 0) (pos 5) row row 2 two_blocks in
    let r = read_kv samples (pos 1) (pos 0) (pos 6) (λ i. low) (λ i. low) 2 in
    ((r q).0 1 ≡ (r two_blocks).0 1) × ((r q).1 1 ≡ (r two_blocks).1 1)
unfolding new_pool
read_kv-write_kv_ne_example =
    read_kv-write_kv_ne samples two_blocks 1 0 5 1 0 6 row row (λ i. low) (λ i. low) 1
      (place 1 5 block_at (omega arith)) (place 1 6 block_at (omega arith))
      (inr (refl, inr (λ e. absurd (omega (arith, e)))))

-- Seventeen positions over both blocks.
cached : (p : ℕ) → p < 17 → IsCached samples (pos 1 ∷ pos 0 ∷ []) two_blocks (pos 0) p
unfolding get_k get_v get_raw new_pool new_blocks kv_elem_size
cached p h = elim (Bool-cases (ltb p 16)) [
  | inl e ↦
      let z : p / 16 ≡ 0 = omega (arith, ltb→lt p 16 e) in
      record { id = pos 1; k_view = view; v_view = view; at = rw z refl; k_at = refl; v_at = refl }
  | inr e ↦
      let z : p / 16 ≡ 1 = ground arith in
      record { id = pos 0; k_view = view; v_view = view; at = rw z refl; k_at = refl; v_at = refl }
]
  where
    view : ℕ → Sample
    view = convert_kv_to_float samples fp8_e4m3 bytes 0

read_kv_prefill_lem_example :
    let r = read_kv_prefill samples (pos 1 ∷ pos 0 ∷ []) 17 (pos 0) two_blocks (row, row) in
    (r.0 (16 * two_blocks.kv_dim + 1) ≡ k_row samples (cached 16 (omega arith)) 0 1)
    × (r.1 (16 * two_blocks.kv_dim + 1) ≡ v_row samples (cached 16 (omega arith)) 0 1)
unfolding new_pool
read_kv_prefill_lem_example =
    read_kv_prefill_lem samples (pos 1 ∷ pos 0 ∷ []) two_blocks (pos 0) 17 cached (row, row) 16 1
      (omega arith) (omega arith)

paged_attention-read_kv_prefill_example :
    let r = read_kv_prefill samples (pos 1 ∷ pos 0 ∷ []) 17 (pos 0) two_blocks (row, row) in
    paged_attention samples row (pos 1 ∷ pos 0 ∷ []) 17 two_blocks 4 2 1 (pos 0) row
    ≡ compute_attention samples row row r.0 r.1 17 4 1 2
unfolding new_pool
paged_attention-read_kv_prefill_example =
    paged_attention-read_kv_prefill samples (pos 1 ∷ pos 0 ∷ []) two_blocks (pos 0) 17 cached 4 2 1
      refl refl row row row row
