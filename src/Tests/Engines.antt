-- ===== src/Tests/Engines.antt =====
-- Runs of the engine of src/paged_engine.cpp with a model of one layer on two-valued floats.
use vllm_cpp.Prelude.{
  ℕ, zero, suc, ◌+◌, ◌-◌, ◌*◌, ◌<◌, ◌≤◌, List, [], ◌∷◌, length, ℤ, pos, Option, none, some,
  is_empty, Bool, true, false, ◌≡◌, refl, arith,
}
use vllm_cpp.Prelude.Assoc.{total}
use vllm_cpp.Config.{fp32}
use vllm_cpp.KvCache.Pool.{BlockPool, new_pool, free_count}
use vllm_cpp.KvCache.Pool.Refs.{refs}
use vllm_cpp.Request.{Request, finished, get_num_blocks}
use vllm_cpp.Scheduler.State.{Scheduler, new_scheduler}
use vllm_cpp.Scheduler.Calls.{new_request}
use vllm_cpp.Scheduler.Ownership.Outcomes.{holds}
use vllm_cpp.Scheduler.Ownership.History.{new_scheduler-Invariant}
use vllm_cpp.Attention.{dot}
use vllm_cpp.Engine.Model.{Qwen36Model, Qwen36TransformerLayer, Buffers}
use vllm_cpp.Engine.Layer.{matmul_in_place}
use vllm_cpp.Engine.InPlace.{seen_by, matmul_in_place-row}
use vllm_cpp.Engine.Prefill.{run_prefill}
use vllm_cpp.Engine.Decode.{run_decode}
use vllm_cpp.Engine.Step.{PagedEngine, step, no_results}
use vllm_cpp.Engine.Calls.{
  new_engine, new_buffers, engine_calls, engine_submit_tokens, engine_step, engine_remove,
  EngineCall,
}
use vllm_cpp.Engine.Cache.{OnlyWrites}
use vllm_cpp.Engine.Isolation.{run_decode-OnlyWrites}
use vllm_cpp.Engine.Leaks.{run_prefill_leak}
use vllm_cpp.Engine.History.{engine_calls_ownership}
use vllm_cpp.Tests.Samples.{Sample, low, high, samples}
use vllm_cpp.Tests.Texts.{sample_tok, no_digits}
use vllm_cpp.Tests.Sampling.{sort_samples}

abbrev ones : ℕ → Sample
ones i = high

abbrev sample_layer : Qwen36TransformerLayer samples
sample_layer = record {
  input_norm = record { weight = ones; eps = low };
  attn = record {
    q_proj = ones;
    k_proj = ones;
    v_proj = ones;
    o_proj = ones;
    q_proj_bias = none;
    k_proj_bias = none;
    v_proj_bias = some ones;
  };
  attn_norm = record { weight = ones; eps = low };
  mlp = some (record { gate_proj = ones; up_proj = ones; down_proj = ones });
  moe = none;
}

abbrev sample_model : Qwen36Model samples
sample_model = record {
  hidden_size = 2;
  num_heads = 1;
  num_kv_heads = 1;
  head_dim = 2;
  ffn_intermediate = 2;
  vocab_size = 3;
  top_k = 1;
  rope_inv_freq = ones;
  rope_inv_freq_size = 1;
  norm_eps = low;
  embeddings = ones;
  lm_head = ones;
  final_norm = ones;
  layers = sample_layer ∷ [];
}

abbrev draws_low : ℕ → Sample
draws_low i = low

abbrev sample_engine : PagedEngine samples
sample_engine = new_engine samples sample_model 2 64 (pos 4) 0 fp32

abbrev run : List EngineCall → PagedEngine samples
run cs =
    engine_calls samples sort_samples draws_low no_digits sample_tok sample_model cs sample_engine

-- A request of two tokens that wants one more: it is admitted and prefilled, decoded, and then
-- retired while it is still in the batch.
abbrev history : List EngineCall
history = engine_submit_tokens (1 ∷ 2 ∷ []) 1 0 0 ∷ engine_step ∷ engine_step ∷ engine_step ∷ []

-- Two blocks of four are lost: one for the copy that step passes on, one for the copy of run_prefill.
free_after : free_count (run history).scheduler.pool ≡ 2
unfolding vllm_cpp.Scheduler.State.new_scheduler vllm_cpp.Scheduler.State.can_allocate
    vllm_cpp.Scheduler.State.allocate_request vllm_cpp.Scheduler.State.free_request_blocks
    vllm_cpp.Scheduler.State.free_table vllm_cpp.Scheduler.Admit.phase_one
    vllm_cpp.Scheduler.Admit.phase_two vllm_cpp.Scheduler.Admit.admission_loop
    vllm_cpp.Scheduler.Admit.for_each vllm_cpp.Scheduler.Admit.admit
    vllm_cpp.Scheduler.Admit.admit_by_state vllm_cpp.Scheduler.Admit.attempt
    vllm_cpp.Scheduler.Admit.settle vllm_cpp.Scheduler.Admit.defer
    vllm_cpp.Scheduler.Admit.write_back vllm_cpp.Scheduler.Admit.total_needed
    vllm_cpp.Scheduler.Admit.needed_of vllm_cpp.Scheduler.Batch.phase_three
    vllm_cpp.Scheduler.Batch.phase_four vllm_cpp.Scheduler.Batch.batch_loop
    vllm_cpp.Scheduler.Batch.batch_one vllm_cpp.Scheduler.Batch.batch_request
    vllm_cpp.Scheduler.Batch.retire_loop vllm_cpp.Scheduler.Batch.retire_one
    vllm_cpp.Scheduler.Batch.retire vllm_cpp.Scheduler.Batch.contains
    vllm_cpp.Scheduler.Batch.schedule vllm_cpp.Scheduler.Batch.count_prompt_tokens
    vllm_cpp.Scheduler.Batch.prompt_size vllm_cpp.KvCache.Manager.alloc_loop
    vllm_cpp.KvCache.Manager.alloc_blocks vllm_cpp.KvCache.Manager.free_blocks
    vllm_cpp.KvCache.Manager.free_blocks_count vllm_cpp.KvCache.Pool.new_pool
    vllm_cpp.KvCache.Pool.new_blocks vllm_cpp.KvCache.Pool.alloc vllm_cpp.KvCache.Pool.free
    vllm_cpp.KvCache.Pool.count_free vllm_cpp.KvCache.Pool.free_count
    vllm_cpp.KvCache.Pool.kv_elem_size vllm_cpp.Request.get_num_blocks vllm_cpp.Request.get_seq_len
    vllm_cpp.Scheduler.Calls.submit_request vllm_cpp.Scheduler.Calls.new_request
    vllm_cpp.Scheduler.Calls.report_output vllm_cpp.Scheduler.Calls.report_one
    vllm_cpp.Scheduler.Calls.take_tokens vllm_cpp.Scheduler.Calls.grow_table
    vllm_cpp.Engine.Calls.new_engine vllm_cpp.Engine.Calls.engine_calls
    vllm_cpp.Engine.Calls.engine_call vllm_cpp.Engine.Step.step vllm_cpp.Engine.Step.step_batch
    vllm_cpp.Engine.Step.step_one vllm_cpp.Engine.Step.prefill_one vllm_cpp.Engine.Step.decode_one
    vllm_cpp.Engine.Step.report vllm_cpp.Engine.Step.singletons vllm_cpp.Engine.Step.submit_tokens
    vllm_cpp.Engine.Prefill.run_prefill vllm_cpp.Engine.Prefill.prefill_prompt
    vllm_cpp.Engine.Prefill.prefill_table vllm_cpp.Engine.Prefill.prefill_layers
    vllm_cpp.Engine.Prefill.prefill_position vllm_cpp.Engine.Prefill.first_token_copy
    vllm_cpp.Prelude.Assoc.find? vllm_cpp.Prelude.Assoc.insert vllm_cpp.Engine.Layer.project
    vllm_cpp.Engine.Layer.project_k vllm_cpp.Engine.Layer.project_v vllm_cpp.Engine.Layer.kv_dim
    vllm_cpp.Engine.Decode.run_decode vllm_cpp.Engine.Decode.decode_layers
    vllm_cpp.Engine.Decode.decode_layer sort_samples vllm_cpp.Prelude.Loops.write_range
    vllm_cpp.Attention.cache_row vllm_cpp.KvCache.Storage.get_k vllm_cpp.KvCache.Pool.get_raw
    vllm_cpp.KvCache.Storage.write_kv vllm_cpp.KvCache.Storage.get_v vllm_cpp.Attention.accumulate
    vllm_cpp.KvCache.Storage.convert_kv_to_float vllm_cpp.KvCache.Storage.decode_elem
    vllm_cpp.KvCache.Storage.byte_at vllm_cpp.KvCache.Storage.overwrite
    vllm_cpp.KvCache.Storage.convert_float_to_kv vllm_cpp.Attention.scale_of
    vllm_cpp.Attention.larger
free_after = refl

engine_calls_ownership_example :
    (total (holds 0) (run history).scheduler.requests ≤ 1)
    × (total (holds 0) (run history).scheduler.requests
        ≤ refs (run history).scheduler.pool.blocks 0)
engine_calls_ownership_example =
    engine_calls_ownership samples sort_samples draws_low no_digits sample_tok sample_model 2 64
      (pos 4) 0 fp32 history 0

-- A request as the scheduler leaves it when it retires it.
abbrev retired_request : Request
retired_request = record (new_request 0 "" (1 ∷ 2 ∷ []) 1 0 0) {
  state = finished;
  generated_tokens = 1 ∷ [];
}

abbrev sample_buffers : Buffers samples
sample_buffers = new_buffers samples

abbrev empty_scheduler : Scheduler
empty_scheduler = new_scheduler 2 64 1 2 4 0 fp32

run_prefill_leak_example :
    let s' =
      (run_prefill samples sort_samples sample_model low retired_request sample_buffers
        empty_scheduler).1 in
    (s'.requests ≡ empty_scheduler.requests)
    × (free_count s'.pool + get_num_blocks retired_request ≤ free_count empty_scheduler.pool)
unfolding new_request new_pool
run_prefill_leak_example =
    run_prefill_leak samples sort_samples sample_model low retired_request sample_buffers
      empty_scheduler (new_scheduler-Invariant 2 64 1 2 4 0 fp32).accounts.exclusive refl refl
      (unfold new_scheduler free_count get_num_blocks in omega arith)

run_decode-OnlyWrites_example :
    OnlyWrites
      (pos 0 ∷ [])
      (new_pool 4 1 2 fp32)
      (run_decode samples sort_samples sample_model low
        (record retired_request { block_table = pos 0 ∷ [] })
        sample_buffers
        (new_pool 4 1 2 fp32)).pool
run_decode-OnlyWrites_example =
    run_decode-OnlyWrites samples sort_samples sample_model low
      (record retired_request { block_table = pos 0 ∷ [] }) sample_buffers (new_pool 4 1 2 fp32)

matmul_in_place-row_example :
    let c = matmul_in_place samples ones 2 2 ones in
    c 1 ≡ dot samples 2 (λ p. ones (1 * 2 + p)) (seen_by samples 1 c ones)
matmul_in_place-row_example = matmul_in_place-row samples ones 2 ones 2 1 (omega arith)
