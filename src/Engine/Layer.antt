-- ===== src/Engine/Layer.antt =====
-- What one layer of src/paged_engine.cpp does to the engine's buffers and to the cache, in the parts
-- that run_prefill and run_decode share.
use vllm_cpp.Prelude.{ℕ, ◌+◌, ◌*◌, List, ℤ, Option, none, some}
use vllm_cpp.Prelude.Loops.{for_range, write_range}
use vllm_cpp.Float.{Floats}
use vllm_cpp.KvCache.Pool.{BlockPool}
use vllm_cpp.Attention.{dot, write_kv_token}
use vllm_cpp.Engine.{rms_norm, matmul_transpose, add_bias, swiglu_func, rope_single, moe_forward}
use vllm_cpp.Engine.Model.{Qwen36FfnLayer, Qwen36TransformerLayer, Qwen36Model, Buffers}

module _ (fl : Floats) where
  open fl use {Float, mul}

  unfoldable pub total_q_dim : Qwen36Model fl → ℕ
  total_q_dim model = model.num_heads * model.head_dim

  unfoldable pub kv_dim : Qwen36Model fl → ℕ
  kv_dim model = model.num_kv_heads * model.head_dim

  unfoldable pub biased : Option (ℕ → Float) → ℕ → (ℕ → Float) → ℕ → Float
  unfolding add_bias
  biased none n out = out
  biased (some bias) n out = add_bias fl out bias n

  -- matmul_transpose with n = 1 whose output is its input b: each row reads what the rows before it
  -- have written.
  unfoldable pub matmul_in_place : (ℕ → Float) → ℕ → ℕ → (ℕ → Float) → ℕ → Float
  unfolding dot
  matmul_in_place a m k b =
      for_range m 0 (λ i c. write_range i 1 (λ z. dot fl k (λ p. a (i * k + p)) c) c) b

  module _ (model : Qwen36Model fl) where
    -- The key of the normed input, then its row in the cache, with the value that v_buf still has.
    unfoldable pub project_k :
        Qwen36TransformerLayer fl
        → ℤ
        → List ℤ
        → ℕ
        → ℕ
        → Buffers fl × BlockPool
        → Buffers fl × BlockPool
    unfolding biased kv_dim rope_single matmul_transpose write_kv_token
    project_k layer l table position seq_len (b, pool) =
        let k : ℕ → Float =
          rope_single fl
            (biased layer.attn.k_proj_bias (kv_dim model) (
              matmul_transpose fl layer.attn.k_proj (kv_dim model) model.hidden_size b.norm_buf 1
                b.k_buf))
            (kv_dim model) model.head_dim position model.rope_inv_freq model.rope_inv_freq_size in
        (record b { k_buf = k }, write_kv_token fl table seq_len l k b.v_buf pool)

    unfoldable pub project_v :
        Qwen36TransformerLayer fl → ℤ → List ℤ → ℕ → Buffers fl × BlockPool → Buffers fl × BlockPool
    unfolding biased kv_dim matmul_transpose write_kv_token
    project_v layer l table seq_len (b, pool) =
        let v : ℕ → Float = biased layer.attn.v_proj_bias (kv_dim model) (
          matmul_transpose fl layer.attn.v_proj (kv_dim model) model.hidden_size b.norm_buf 1
            b.v_buf) in
        (record b { v_buf = v }, write_kv_token fl table seq_len l b.k_buf v pool)

    unfoldable pub project_q : Qwen36TransformerLayer fl → ℕ → Buffers fl → Buffers fl
    unfolding biased total_q_dim rope_single matmul_transpose
    project_q layer position b = record b {
      q_buf =
          rope_single fl
            (biased layer.attn.q_proj_bias (total_q_dim model) (
              matmul_transpose fl layer.attn.q_proj (total_q_dim model) model.hidden_size b.norm_buf
                1 b.q_buf))
            (total_q_dim model) model.head_dim position model.rope_inv_freq
            model.rope_inv_freq_size;
    }

    -- The input's norm and the three projections.
    unfoldable pub project :
        Qwen36TransformerLayer fl
        → ℤ
        → List ℤ
        → ℕ
        → ℕ
        → (ℕ → Float)
        → Buffers fl × BlockPool
        → Buffers fl × BlockPool
    unfolding project_k project_v project_q rms_norm
    project layer l table position seq_len input (b, pool) =
        let normed : Buffers fl = record b {
          norm_buf =
              rms_norm fl input layer.input_norm.weight b.norm_buf model.hidden_size
                layer.input_norm.eps;
        } in
        let (b', pool') =
          project_v layer l table seq_len
            (project_k layer l table position seq_len (normed, pool)) in
        (project_q layer position b', pool')

    unfoldable pub dense_forward : Qwen36FfnLayer fl → Buffers fl → Buffers fl
    unfolding matmul_transpose matmul_in_place swiglu_func
    dense_forward mlp b =
        let n = model.ffn_intermediate in
        let gate : ℕ → Float =
          matmul_transpose fl mlp.gate_proj n model.hidden_size b.norm_buf 1 b.gate_buf in
        let up : ℕ → Float =
          matmul_transpose fl mlp.up_proj n model.hidden_size b.norm_buf 1 b.up_buf in
        let act : ℕ → Float =
          write_range 0 n (λ i. mul (swiglu_func fl (gate i)) (up i)) b.mlp_buf in
        record b {
          gate_buf = gate;
          up_buf = up;
          mlp_buf = matmul_in_place mlp.down_proj model.hidden_size n act;
        }

    -- A layer with neither part leaves mlp_buf as it was.
    unfoldable pub feed_forward :
        (List (Float × ℕ) → List (Float × ℕ)) → Qwen36TransformerLayer fl → Buffers fl → Buffers fl
    unfolding dense_forward moe_forward
    feed_forward sort layer b = elim layer.moe [
      | some moe ↦ record b {
        mlp_buf =
            moe_forward fl sort b.mlp_buf b.norm_buf model.hidden_size moe.gate moe.experts
              moe.num_experts moe.expert_dim model.top_k;
      }
      | none ↦ elim layer.mlp [ none ↦ b | some mlp ↦ dense_forward mlp b ]
    ]

    unfoldable pub norm_after : Qwen36TransformerLayer fl → (ℕ → Float) → Buffers fl → Buffers fl
    unfolding rms_norm
    norm_after layer input b = record b {
      norm_buf =
          rms_norm fl input layer.attn_norm.weight b.norm_buf model.hidden_size layer.attn_norm.eps;
    }

    unfoldable pub project_o : Qwen36TransformerLayer fl → Buffers fl → Buffers fl
    unfolding matmul_transpose total_q_dim
    project_o layer b = record b {
      hidden_out =
          matmul_transpose fl layer.attn.o_proj model.hidden_size (total_q_dim model) b.attn_out 1
            b.hidden_out;
    }
