-- ===== src/KvCache/Pool.antt =====
-- The physical blocks and their pool: `KVsBlock` and `BlockPool` of src/kv_cache_manager.h and .cpp.
-- A block id is an `int32_t`, so an integer; the reference count is never negative at rest, so a
-- number. Each method holds the pool's mutex from its first to its last line, so it is one step.
pub mod Find
pub mod Refs
pub mod Effects
pub mod History
use vllm_cpp.Prelude.{
  ℕ, zero, suc, ◌+◌, ◌-◌, ◌*◌, ◌==◌, Bool, true, false, if◌then◌else◌, Option, none, some, List, [],
  ◌∷◌, map, ℤ, pos, negsuc, below, length, modify, replicate, get_elem?,
}
use mathlib.Core.Option
use vllm_cpp.Config.{block_size, KvDtype, fp32, fp16, fp8_e4m3}

-- Bytes per element.
unfoldable pub kv_elem_size : KvDtype → ℕ
kv_elem_size fp32 = 4
kv_elem_size fp16 = 2
kv_elem_size fp8_e4m3 = 1

pub record KvsBlock : Type 0 where
  pub block_id : ℕ
  pub ref_count : ℕ
  pub free : Bool
  pub dtype : KvDtype
  pub k_data : List ℕ
  pub v_data : List ℕ

pub record BlockPool : Type 0 where
  pub blocks : List KvsBlock
  pub kv_dim : ℕ
  pub num_layers : ℕ
  pub kv_dtype : KvDtype

-- The bytes of one layer of a block.
abbrev pub layer_bytes : BlockPool → ℕ
layer_bytes p = block_size * p.kv_dim * kv_elem_size p.kv_dtype

abbrev new_block : KvDtype → ℕ → ℕ → KvsBlock
new_block dtype bytes i = record {
  block_id = i;
  ref_count = 0;
  free = true;
  dtype = dtype;
  k_data = replicate bytes 0;
  v_data = replicate bytes 0;
}

-- The blocks `i`, `i + 1`, … of the constructor's loop.
unfoldable pub new_blocks : KvDtype → ℕ → ℕ → ℕ → List KvsBlock
new_blocks dtype bytes i zero = []
new_blocks dtype bytes i (suc n) = new_block dtype bytes i ∷ new_blocks dtype bytes (i + 1) n

unfoldable pub new_pool : ℕ → ℕ → ℕ → KvDtype → BlockPool
unfolding new_blocks kv_elem_size
new_pool num_blocks num_layers kv_dim dtype = record {
  blocks = new_blocks dtype (num_layers * (block_size * kv_dim * kv_elem_size dtype)) 0 num_blocks;
  kv_dim = kv_dim;
  num_layers = num_layers;
  kv_dtype = dtype;
}

abbrev pub take_block : KvsBlock → KvsBlock
take_block b = record b { free = false; ref_count = 1 }

abbrev zeroed : List ℕ → List ℕ
zeroed bytes = map (λ _. 0) bytes

-- One reference less; the last one puts the block back and wipes it.
abbrev pub free_block : KvsBlock → KvsBlock
free_block b =
    if b.ref_count - 1 == 0
    then record b { ref_count = 0; free = true; k_data = zeroed b.k_data; v_data = zeroed b.v_data }
    else record b { ref_count = b.ref_count - 1 }

abbrev pub deref_block : KvsBlock → KvsBlock
deref_block b =
    if b.ref_count - 1 == 0
    then record b { ref_count = 0; free = true }
    else record b { ref_count = b.ref_count - 1 }

abbrev pub ref_block : KvsBlock → KvsBlock
ref_block b = record b { ref_count = b.ref_count + 1 }

-- The position of the first free block.
pub find_free : List KvsBlock → Option ℕ
find_free [] = none
find_free (b ∷ bs) = if b.free then some 0 else Option.map suc (find_free bs)

-- The block's id, or -1.
unfoldable pub alloc : BlockPool → ℤ × BlockPool
unfolding find_free
alloc p = elim (find_free p.blocks) [
  | none ↦ (negsuc 0, p)
  | some i ↦ (pos i, record p { blocks = modify p.blocks i take_block })
]

-- An id that is out of range changes nothing.
abbrev change_block : (KvsBlock → KvsBlock) → ℤ → BlockPool → BlockPool
change_block f id p = elim (below id (length p.blocks)) [
  | none ↦ p
  | some i ↦ record p { blocks = modify p.blocks i f }
]

unfoldable pub free : ℤ → BlockPool → BlockPool
free = change_block free_block

unfoldable pub ref : ℤ → BlockPool → BlockPool
ref = change_block ref_block

unfoldable pub deref : ℤ → BlockPool → BlockPool
deref = change_block deref_block

abbrev copy_block : KvsBlock → KvsBlock → KvsBlock
copy_block s d = record d { k_data = s.k_data; v_data = s.v_data }

copy_at : Option ℕ → Option ℕ → BlockPool → BlockPool
copy_at (some d) (some s) p = elim (get_elem? p.blocks s) [
  | none ↦ p
  | some b ↦ record p { blocks = modify p.blocks d (copy_block b) }
]
copy_at _ _ p = p

unfoldable pub copy_to : ℤ → ℤ → BlockPool → BlockPool
unfolding copy_at
copy_to dst src p = copy_at (below dst (length p.blocks)) (below src (length p.blocks)) p

unfoldable pub count_free : List KvsBlock → ℕ
count_free [] = 0
count_free (b ∷ bs) = (if b.free then 1 else 0) + count_free bs

unfoldable pub free_count : BlockPool → ℕ
unfolding count_free
free_count p = count_free p.blocks

unfoldable pub used_count : BlockPool → ℕ
unfolding free_count
used_count p = length p.blocks - free_count p

abbrev reset_block : KvsBlock → KvsBlock
reset_block b = record b {
  ref_count = 0;
  free = true;
  k_data = zeroed b.k_data;
  v_data = zeroed b.v_data;
}

unfoldable pub reset : BlockPool → BlockPool
reset p = record p { blocks = map reset_block p.blocks }

-- Where a layer of a block begins in `k_data` and `v_data` of that block; `none` is the null pointer.
unfoldable pub get_raw : ℤ → ℤ → BlockPool → Option (ℕ × ℕ)
unfolding kv_elem_size
get_raw id layer p = elim (below id (length p.blocks)) [
  | none ↦ none
  | some i ↦ Option.map (λ l. (i, l * layer_bytes p)) (below layer p.num_layers)
]

-- The calls that change a pool.
pub data PoolCall : Type 0 where
  call_alloc call_reset : PoolCall
  call_free call_ref call_deref : (id : ℤ) → PoolCall
  call_copy : (dst src : ℤ) → PoolCall

unfoldable pub call : PoolCall → BlockPool → BlockPool
unfolding alloc free ref deref copy_to reset
call call_alloc p = (alloc p).1
call call_reset p = reset p
call (call_free id) p = free id p
call (call_ref id) p = ref id p
call (call_deref id) p = deref id p
call (call_copy dst src) p = copy_to dst src p

unfoldable pub calls : List PoolCall → BlockPool → BlockPool
unfolding call
calls [] p = p
calls (c ∷ cs) p = calls cs (call c p)
