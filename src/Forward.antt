-- ===== src/Forward.antt =====
-- The arithmetic of src/model.cpp with forward_cpu, whose weights are tensors, plain or quantized.
-- What src/model.cpp has in the same words as src/paged_engine.cpp is taken from Engine and
-- Attention.
pub mod Rows
pub mod Agreement
pub mod Causal
use vllm_cpp.Prelude.{
  ℕ, zero, suc, ◌+◌, ◌-◌, ◌*◌, ◌/◌, ltb, if◌then◌else◌, Bool, true, false, List, [], ◌∷◌, length,
  Option, none, some,
}
use vllm_cpp.Prelude.Loops.{for_range, write_range}
use vllm_cpp.Float.{Floats}
use vllm_cpp.Quantization.Tensor.{
  QuantizedTensor, tile_width, tile_size, tile_sum, quantized_matmul_transpose,
}
use vllm_cpp.Tensor.{Tensor, quantized, is_quantized}
use vllm_cpp.Attention.{zero_float, dot, compute_attention}
use vllm_cpp.Engine.{
  rms_norm, matmul_transpose, add_vectors, add_bias, swiglu_func, rope_single, moe_forward,
}
use vllm_cpp.Engine.Model.{Qwen36MoeLayer, RmsNormParams}

module _ (fl : Floats) where
  open fl use {Float, of_ℕ, add, mul}

  pub record TensorAttn : Type 0 where
    pub q_proj : Tensor Float
    pub k_proj : Tensor Float
    pub v_proj : Tensor Float
    pub o_proj : Tensor Float
    pub q_proj_bias : Option (ℕ → Float)
    pub k_proj_bias : Option (ℕ → Float)
    pub v_proj_bias : Option (ℕ → Float)

  pub record TensorFfn : Type 0 where
    pub gate_proj : Tensor Float
    pub up_proj : Tensor Float
    pub down_proj : Tensor Float

  -- `moe` is there when its experts and the data of its gate are not null.
  pub record TensorLayer : Type 0 where
    pub input_norm : RmsNormParams fl
    pub attn : TensorAttn
    pub attn_norm : RmsNormParams fl
    pub mlp : TensorFfn
    pub moe : Option (Qwen36MoeLayer fl)

  -- `layers` has num_layers entries.
  pub record TensorModel : Type 0 where
    pub hidden_size : ℕ
    pub num_heads : ℕ
    pub num_kv_heads : ℕ
    pub head_dim : ℕ
    pub ffn_intermediate : ℕ
    pub vocab_size : ℕ
    pub top_k : ℕ
    pub rope_inv_freq : ℕ → Float
    pub rope_inv_freq_size : ℕ
    pub norm_eps : Float
    pub embeddings : ℕ → Float
    pub lm_head : Tensor Float
    pub final_norm : ℕ → Float
    pub layers : List TensorLayer

  -- The null pointer, which must not be read, has zeros.
  unfoldable pub data_of : Tensor Float → ℕ → Float
  data_of t = elim (t.data_ptr) [ none ↦ λ i. zero_float fl | some f ↦ f ]

  unfoldable pub qmatmul : (ℕ → Float) → ℕ → ℕ → Tensor Float → ℕ → (ℕ → Float) → ℕ → Float
  unfolding quantized quantized_matmul_transpose matmul_transpose data_of
  qmatmul a m k weight n c = elim (quantized weight) [
    | some q ↦ quantized_matmul_transpose fl a m k q n c
    | none ↦ matmul_transpose fl a m k (data_of weight) n c
  ]

  -- qmatmul with m = 1 whose output is its input a. The plain product reads what it has written; the
  -- quantized one clears the outputs first, and then reads what it adds up.
  unfoldable pub qmatmul_in_place : ℕ → Tensor Float → ℕ → (ℕ → Float) → ℕ → Float
  unfolding quantized tile_sum dot data_of
  qmatmul_in_place k weight n c = elim (quantized weight) [
    | some q ↦
        for_range ((k + tile_width - 1) / tile_width) 0
          (λ tile c.
            let p_start = tile * tile_width in
            for_range n 0
              (λ j c.
                let sum = tile_sum fl c q j p_start (tile_size k p_start) in
                write_range j 1 (λ z. add (c j) sum) c)
              c)
          (write_range 0 n (λ j. of_ℕ 0) c)
    | none ↦
        for_range n 0 (λ j c. write_range j 1 (λ z. dot fl k c (λ p. data_of weight (j * k + p))) c)
          c
  ]

  unfoldable pub biased_by : (ℕ → Float) → Option (ℕ → Float) → ℕ → ℕ → Float
  unfolding add_bias
  biased_by out none n = out
  biased_by out (some bias) n = add_bias fl out bias n

  -- The buffers that forward_cpu allocates.
  pub record ForwardBuffers : Type 0 where
    pub k_cache : ℕ → Float
    pub v_cache : ℕ → Float
    pub hidden_states : ℕ → Float
    pub q_buf : ℕ → Float
    pub k_buf : ℕ → Float
    pub v_buf : ℕ → Float
    pub attn_result : ℕ → Float
    pub attn_out : ℕ → Float
    pub mlp_out : ℕ → Float
    pub gate_act : ℕ → Float
    pub up_act : ℕ → Float

  unfoldable pub new_buffers : ForwardBuffers
  new_buffers = record {
    k_cache = λ i. zero_float fl;
    v_cache = λ i. zero_float fl;
    hidden_states = λ i. zero_float fl;
    q_buf = λ i. zero_float fl;
    k_buf = λ i. zero_float fl;
    v_buf = λ i. zero_float fl;
    attn_result = λ i. zero_float fl;
    attn_out = λ i. zero_float fl;
    mlp_out = λ i. zero_float fl;
    gate_act = λ i. zero_float fl;
    up_act = λ i. zero_float fl;
  }

  module _ (sort : List (Float × ℕ) → List (Float × ℕ)) (model : TensorModel) (seq_len : ℕ) where
    unfoldable pub cache_width : ℕ
    cache_width = model.num_kv_heads * model.head_dim

    unfoldable pub total_heads_dim : ℕ
    total_heads_dim = model.num_heads * model.head_dim

    -- The rows of the states; an id outside the vocabulary leaves its row at zero.
    unfoldable pub load_embeddings : ℕ → List ℕ → (ℕ → Float) → ℕ → Float
    load_embeddings pos [] states = states
    load_embeddings pos (id ∷ ids) states = load_embeddings (pos + 1) ids (
        if ltb id model.vocab_size
        then write_range (pos * model.hidden_size) model.hidden_size
            (λ d. model.embeddings (id * model.hidden_size + d)) states
        else states)

    unfoldable pub state_row : ForwardBuffers → ℕ → ℕ → Float
    state_row b pos d = b.hidden_states (pos * model.hidden_size + d)

    -- hidden_states[pos] += out
    unfoldable pub add_residual : ℕ → (ℕ → Float) → ForwardBuffers → ForwardBuffers
    unfolding state_row
    add_residual pos out b = record b {
      hidden_states =
          write_range (pos * model.hidden_size) model.hidden_size
            (λ i. add (state_row b pos i) (out i)) b.hidden_states;
    }

    unfoldable pub norm_row : RmsNormParams fl → ℕ → ForwardBuffers → ForwardBuffers
    unfolding rms_norm state_row
    norm_row norm pos b = record b {
      attn_out = rms_norm fl (state_row b pos) norm.weight b.attn_out model.hidden_size norm.eps;
    }

    unfoldable pub cache_key : TensorLayer → ℕ → ℕ → ForwardBuffers → ForwardBuffers
    unfolding qmatmul biased_by rope_single cache_width
    cache_key layer l pos b =
        let k : ℕ → Float =
          rope_single fl
            (biased_by
              (qmatmul b.attn_out 1 model.hidden_size layer.attn.k_proj cache_width b.k_buf)
              layer.attn.k_proj_bias cache_width)
            cache_width model.head_dim pos model.rope_inv_freq model.rope_inv_freq_size in
        record b {
          k_buf = k;
          k_cache =
              write_range (l * seq_len * cache_width + pos * cache_width) cache_width k b.k_cache;
        }

    unfoldable pub cache_value : TensorLayer → ℕ → ℕ → ForwardBuffers → ForwardBuffers
    unfolding qmatmul biased_by cache_width
    cache_value layer l pos b =
        let v : ℕ → Float =
          biased_by (qmatmul b.attn_out 1 model.hidden_size layer.attn.v_proj cache_width b.v_buf)
            layer.attn.v_proj_bias cache_width in
        record b {
          v_buf = v;
          v_cache =
              write_range (l * seq_len * cache_width + pos * cache_width) cache_width v b.v_cache;
        }

    -- The query has hidden_size outputs here, not total_heads_dim.
    unfoldable pub query : TensorLayer → ℕ → ForwardBuffers → ForwardBuffers
    unfolding qmatmul biased_by rope_single total_heads_dim
    query layer pos b = record b {
      q_buf =
          rope_single fl
            (biased_by
              (qmatmul b.attn_out 1 model.hidden_size layer.attn.q_proj model.hidden_size b.q_buf)
              layer.attn.q_proj_bias model.hidden_size)
            total_heads_dim model.head_dim pos model.rope_inv_freq model.rope_inv_freq_size;
    }

    -- Attention over the positions 0..pos, its projection, and the residual.
    unfoldable pub attend : TensorLayer → ℕ → ℕ → ForwardBuffers → ForwardBuffers
    unfolding compute_attention qmatmul add_residual cache_width total_heads_dim
    attend layer l pos b =
        let result : ℕ → Float =
          compute_attention fl b.attn_result b.q_buf
            (λ i. b.k_cache (l * seq_len * cache_width + i))
            (λ i. b.v_cache (l * seq_len * cache_width + i)) (pos + 1) model.num_heads
            model.head_dim model.num_kv_heads in
        let out : ℕ → Float =
          qmatmul result 1 total_heads_dim layer.attn.o_proj model.hidden_size b.attn_out in
        add_residual pos out (record b { attn_result = result; attn_out = out })

    unfoldable pub ffn_forward : TensorFfn → ForwardBuffers → ForwardBuffers
    unfolding qmatmul qmatmul_in_place swiglu_func
    ffn_forward mlp b =
        let n = model.ffn_intermediate in
        let gate : ℕ → Float = qmatmul b.attn_out 1 model.hidden_size mlp.gate_proj n b.gate_act in
        let up : ℕ → Float = qmatmul b.attn_out 1 model.hidden_size mlp.up_proj n b.up_act in
        let act : ℕ → Float =
          write_range 0 n (λ i. mul (swiglu_func fl (gate i)) (up i)) b.mlp_out in
        record b {
          gate_act = gate;
          up_act = up;
          mlp_out = qmatmul_in_place n mlp.down_proj model.hidden_size act;
        }

    unfoldable pub has_gate : TensorFfn → Bool
    unfolding is_quantized
    has_gate mlp = elim (mlp.gate_proj.data_ptr) [
      | some f ↦ true
      | none ↦ is_quantized mlp.gate_proj
    ]

    -- A layer with neither part leaves mlp_out as it was.
    unfoldable pub mlp_forward : TensorLayer → ForwardBuffers → ForwardBuffers
    unfolding moe_forward ffn_forward has_gate
    mlp_forward layer b = elim layer.moe [
      | some moe ↦ record b {
        mlp_out =
            moe_forward fl sort b.mlp_out b.attn_out model.hidden_size moe.gate moe.experts
              moe.num_experts moe.expert_dim model.top_k;
      }
      | none ↦ if has_gate layer.mlp then ffn_forward layer.mlp b else b
    ]

    unfoldable pub forward_position : TensorLayer → ℕ → ℕ → ForwardBuffers → ForwardBuffers
    unfolding norm_row cache_key cache_value query attend mlp_forward add_residual
    forward_position layer l pos b =
        let keyed : ForwardBuffers = cache_key layer l pos (norm_row layer.input_norm pos b) in
        let asked : ForwardBuffers = query layer pos (cache_value layer l pos keyed) in
        let attended : ForwardBuffers = attend layer l pos asked in
        let fed : ForwardBuffers = mlp_forward layer (norm_row layer.attn_norm pos attended) in
        add_residual pos fed.mlp_out fed

    unfoldable pub forward_layers : ℕ → List TensorLayer → ForwardBuffers → ForwardBuffers
    unfolding forward_position
    forward_layers l [] b = b
    forward_layers l (layer ∷ layers) b =
        forward_layers (l + 1) layers (for_range seq_len 0 (forward_position layer l) b)

  -- The logits of the last position, of which there must be one.
  unfoldable pub forward_cpu :
      (List (Float × ℕ) → List (Float × ℕ)) → TensorModel → List ℕ → ℕ → Float
  unfolding forward_layers load_embeddings new_buffers state_row rms_norm qmatmul
  forward_cpu sort model input_ids =
      let seq_len = length input_ids in
      let start : ForwardBuffers = record new_buffers {
        hidden_states = load_embeddings sort model seq_len 0 input_ids new_buffers.hidden_states;
      } in
      let last : ForwardBuffers = forward_layers sort model seq_len 0 model.layers start in
      let final_norm_out : ℕ → Float =
        rms_norm fl (state_row sort model seq_len last (seq_len - 1)) model.final_norm
          (λ i. zero_float fl) model.hidden_size model.norm_eps in
      qmatmul final_norm_out 1 model.hidden_size model.lm_head model.vocab_size (λ i. zero_float fl)
