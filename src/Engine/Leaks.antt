-- ===== src/Engine/Leaks.antt =====
-- The blocks that run_prefill of src/paged_engine.cpp takes for a copy of a request.
use vllm_cpp.Prelude.{ℕ, ◌+◌, ◌≤◌, is_empty, List, [], length, true, false, ◌≡◌, refl, ap, arith}
use vllm_cpp.Prelude.Assoc.{find?}
use vllm_cpp.Float.{Floats}
use vllm_cpp.KvCache.Pool.{BlockPool, free_count}
use vllm_cpp.KvCache.Manager.Ownership.{IsExclusive, alloc_blocks-Takes}
use vllm_cpp.Request.{Request, get_num_blocks}
use vllm_cpp.Scheduler.State.{Scheduler}
use vllm_cpp.Engine.Model.{Qwen36Model, Buffers}
use vllm_cpp.Engine.Prefill.{prefill_table, prefill_prompt, prefill_logits, run_prefill}
use vllm_cpp.Engine.Isolation.{prefill_layers-OnlyWrites}
use vllm_cpp.Engine.Growth.{Grows, OnlyWrites-Grows, prefill_table-Grows, copy-Grows}

prefill_table_free :
    (req : Request) (p : BlockPool)
    → IsExclusive p
    → req.block_table ≡ []
    → get_num_blocks req ≤ free_count p
    → free_count (prefill_table req p).1 + get_num_blocks req ≡ free_count p
unfolding prefill_table
prefill_table_free req p x none_held enough =
    let t = alloc_blocks-Takes (get_num_blocks req) p x in
    let none_left : is_empty req.block_table ≡ true = ap is_empty none_held in
    rw (none_left, prefill_table) (t.left (t.enough enough))

module _ (fl : Floats) (sort : List (fl.Float × ℕ) → List (fl.Float × ℕ))
    (model : Qwen36Model fl) where
  written-Grows :
      (req : Request) (b : Buffers fl) (p : BlockPool)
      → IsExclusive p
      → Grows (prefill_table req p).1 (prefill_prompt fl sort model req b p).pool
  unfolding prefill_prompt
  written-Grows req b p x =
      OnlyWrites-Grows (prefill_table req p).0 (prefill_table req p).1 _
        (prefill_table-Grows req p x).exclusive
        (prefill_layers-OnlyWrites fl sort model model.layers 0 _ (length req.prompt_tokens) _)

  -- A request with a prompt and no blocks, as a request is that the scheduler has just retired: the
  -- blocks for all its tokens are taken from the pool, and no request of the scheduler changes.
  pub run_prefill_leak :
      (r : fl.Float) (req : Request) (b : Buffers fl) (s : Scheduler)
      → IsExclusive s.pool
      → is_empty req.prompt_tokens ≡ false
      → req.block_table ≡ []
      → get_num_blocks req ≤ free_count s.pool
      → let s' = (run_prefill fl sort model r req b s).1 in
        (s'.requests ≡ s.requests) × (free_count s'.pool + get_num_blocks req ≤ free_count s.pool)
  unfolding run_prefill
  run_prefill_leak r req b s x prompt none_held enough =
      let left = prefill_table_free req s.pool x none_held enough in
      let written = written-Grows req b s.pool x in
      let prefilled = prefill_prompt fl sort model req b s.pool in
      let copied =
        copy-Grows fl sort model r
          (prefill_logits fl sort model (length req.prompt_tokens) prefilled).1
          (find? req.request_id s.requests) prefilled.pool written.exclusive in
      rw (prompt, run_prefill) (refl, omega (arith, left, written.fewer_free, copied.fewer_free))
