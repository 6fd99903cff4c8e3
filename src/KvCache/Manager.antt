-- ===== src/KvCache/Manager.antt =====
-- `KVCacheManager` of src/kv_cache_manager.cpp: lists of blocks taken, given back and copied.
pub mod Ownership
use vllm_cpp.Prelude.{ℕ, zero, suc, Bool, true, false, List, [], ◌∷◌, ◌++◌, ℤ, pos, negsuc}
use vllm_cpp.KvCache.Pool.{BlockPool, alloc, free, copy_to, free_count, used_count}

pub record AllocResult : Type 0 where
  pub done : Bool
  pub out : List ℤ
  pub pool : BlockPool

-- The loop of `alloc_blocks`. When the pool runs out, what was taken so far stays taken and in `out`.
unfoldable pub alloc_loop : ℕ → List ℤ → BlockPool → AllocResult
alloc_loop zero out p = record { done = true; out = out; pool = p }
alloc_loop (suc n) out p = elim (alloc p).0 [
  | pos i ↦ alloc_loop n (out ++ pos i ∷ []) (alloc p).1
  | negsuc _ ↦ record { done = false; out = out; pool = (alloc p).1 }
]

unfoldable pub alloc_blocks : ℕ → BlockPool → AllocResult
alloc_blocks n p = alloc_loop n [] p

unfoldable pub free_blocks : List ℤ → BlockPool → BlockPool
free_blocks [] p = p
free_blocks (id ∷ ids) p = free_blocks ids (free id p)

unfoldable pub copy_blocks : List ℤ → List ℤ → BlockPool → BlockPool
copy_blocks [] dst p = p
copy_blocks (s ∷ src) [] p = p
copy_blocks (s ∷ src) (d ∷ dst) p = copy_blocks src dst (copy_to d s p)

unfoldable pub free_blocks_count : BlockPool → ℕ
free_blocks_count p = free_count p

unfoldable pub used_blocks_count : BlockPool → ℕ
used_blocks_count p = used_count p
