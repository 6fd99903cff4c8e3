-- ===== src/Engine/Model.antt =====
-- The model's weights as src/paged_engine.cpp reads them from src/model.h, and the engine's buffers.
use vllm_cpp.Prelude.{ℕ, List, Option}
use vllm_cpp.Float.{Floats}
use vllm_cpp.Engine.{Expert}

module _ (fl : Floats) where
  open fl use {Float}

  -- A tensor is its `data`. `none` stands for a null pointer where the source tests for one.
  pub record Qwen36FfnLayer : Type 0 where
    pub gate_proj : ℕ → Float
    pub up_proj : ℕ → Float
    pub down_proj : ℕ → Float

  -- `expert_dim` is `experts[0].gate_proj.shape[0]`.
  pub record Qwen36MoeLayer : Type 0 where
    pub gate : ℕ → Float
    pub experts : ℕ → Expert fl
    pub num_experts : ℕ
    pub expert_dim : ℕ

  pub record Qwen36AttnLayer : Type 0 where
    pub q_proj : ℕ → Float
    pub k_proj : ℕ → Float
    pub v_proj : ℕ → Float
    pub o_proj : ℕ → Float
    pub q_proj_bias : Option (ℕ → Float)
    pub k_proj_bias : Option (ℕ → Float)
    pub v_proj_bias : Option (ℕ → Float)

  pub record RmsNormParams : Type 0 where
    pub weight : ℕ → Float
    pub eps : Float

  pub record Qwen36TransformerLayer : Type 0 where
    pub input_norm : RmsNormParams
    pub attn : Qwen36AttnLayer
    pub attn_norm : RmsNormParams
    pub mlp : Option Qwen36FfnLayer
    pub moe : Option Qwen36MoeLayer

  -- `layers` has num_layers entries.
  pub record Qwen36Model : Type 0 where
    pub hidden_size : ℕ
    pub num_heads : ℕ
    pub num_kv_heads : ℕ
    pub head_dim : ℕ
    pub ffn_intermediate : ℕ
    pub vocab_size : ℕ
    pub top_k : ℕ
    pub rope_inv_freq : ℕ → Float
    pub rope_inv_freq_size : ℕ
    pub norm_eps : Float
    pub embeddings : ℕ → Float
    pub lm_head : ℕ → Float
    pub final_norm : ℕ → Float
    pub layers : List Qwen36TransformerLayer

  pub record Buffers : Type 0 where
    pub q_buf : ℕ → Float
    pub k_buf : ℕ → Float
    pub v_buf : ℕ → Float
    pub attn_out : ℕ → Float
    pub hidden_out : ℕ → Float
    pub norm_buf : ℕ → Float
    pub mlp_buf : ℕ → Float
    pub gate_buf : ℕ → Float
    pub up_buf : ℕ → Float
    pub k_contiguous : ℕ → Float
    pub v_contiguous : ℕ → Float
