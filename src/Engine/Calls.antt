-- ===== src/Engine/Calls.antt =====
-- The constructor of PagedEngine in src/paged_engine.cpp, and histories of its public calls.
use vllm_cpp.Prelude.{ℕ, ◌+◌, ◌-◌, ◌*◌, ◌/◌, List, [], ◌∷◌, length, ℤ, pos, negsuc}
use Prim.Native.String.{String}
use vllm_cpp.Config.{block_size, max_context, KvDtype}
use vllm_cpp.Float.{Floats}
use vllm_cpp.Scheduler.State.{new_scheduler}
use vllm_cpp.Tokenizer.{TokenizerConfig}
use vllm_cpp.Attention.{zero_float}
use vllm_cpp.Engine.Model.{Qwen36Model, Buffers}
use vllm_cpp.Engine.Layer.{kv_dim}
use vllm_cpp.Engine.Step.{PagedEngine, submit, submit_tokens, step, remove}

-- A negative number of blocks asks for as many as max_num_seqs full contexts need.
unfoldable pub gpu_blocks : ℕ → ℤ → ℕ
gpu_blocks max_num_seqs (pos n) = n
gpu_blocks max_num_seqs (negsuc _) = (max_context + block_size - 1) / block_size * max_num_seqs

unfoldable pub new_buffers : (fl : Floats) → Buffers fl
new_buffers fl =
    let zeros : ℕ → fl.Float = λ i. zero_float fl in
    record {
      q_buf = zeros;
      k_buf = zeros;
      v_buf = zeros;
      attn_out = zeros;
      hidden_out = zeros;
      norm_buf = zeros;
      mlp_buf = zeros;
      gate_buf = zeros;
      up_buf = zeros;
      k_contiguous = zeros;
      v_contiguous = zeros;
    }

unfoldable pub new_engine :
    (fl : Floats) → Qwen36Model fl → ℕ → ℕ → ℤ → ℕ → KvDtype → PagedEngine fl
unfolding new_buffers gpu_blocks kv_dim
new_engine fl model max_num_seqs max_total_tokens num_gpu_blocks num_cpu_blocks dtype = record {
  scheduler =
      new_scheduler max_num_seqs max_total_tokens (length model.layers) (kv_dim fl model)
        (gpu_blocks max_num_seqs num_gpu_blocks) num_cpu_blocks dtype;
  buffers = new_buffers fl;
  draws = 0;
}

pub data EngineCall : Type 0 where
  engine_submit : String → List ℕ → (max_new temperature top_p : ℕ) → EngineCall
  engine_submit_tokens : List ℕ → (max_new temperature top_p : ℕ) → EngineCall
  engine_step : EngineCall
  engine_remove : ℕ → EngineCall

module _ (fl : Floats) (sort : List (fl.Float × ℕ) → List (fl.Float × ℕ)) (draw : ℕ → fl.Float)
    (to_string : ℕ → List ℕ) (tok : TokenizerConfig) (model : Qwen36Model fl) where
  unfoldable pub engine_call : EngineCall → PagedEngine fl → PagedEngine fl
  unfolding submit submit_tokens step remove
  engine_call (engine_submit prompt text n t p) e =
      (submit fl sort draw to_string tok model prompt text n t p e).0
  engine_call (engine_submit_tokens tokens n t p) e =
      (submit_tokens fl sort draw to_string tok model tokens n t p e).0
  engine_call engine_step e = (step fl sort draw to_string tok model e).0
  engine_call (engine_remove rid) e = remove fl sort draw to_string tok model rid e

  unfoldable pub engine_calls : List EngineCall → PagedEngine fl → PagedEngine fl
  unfolding engine_call
  engine_calls [] e = e
  engine_calls (c ∷ cs) e = engine_calls cs (engine_call c e)
