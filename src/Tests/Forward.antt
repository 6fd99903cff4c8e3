-- ===== src/Tests/Forward.antt =====
-- A run of the arithmetic of forward_cpu at a model of one layer on two-valued floats.
use vllm_cpp.Prelude.{ℕ, ◌+◌, ◌*◌, ◌≡◌, refl, sym, inl, [], ◌∷◌, none, some, arith}
use vllm_cpp.Prelude.Loops.{write_range, write_range_out}
use vllm_cpp.Tensor.{Tensor, f32}
use vllm_cpp.Forward.{TensorModel, TensorLayer, ForwardBuffers, new_buffers}
use vllm_cpp.Forward.Rows.{passes}
use vllm_cpp.Forward.Agreement.{Agrees}
use vllm_cpp.Forward.Causal.{forward_position_causal}
use vllm_cpp.Tests.Samples.{Sample, low, high, samples}
use vllm_cpp.Tests.Sampling.{sort_samples}

abbrev ones : ℕ → Sample
ones i = high

abbrev plain : Tensor Sample
plain = record {
  shape = 2 ∷ 2 ∷ [];
  data_ptr = some ones;
  precision = f32;
  numel = 4;
  byte_size = 16;
  quant = none;
}

abbrev plain_layer : TensorLayer samples
plain_layer = record {
  input_norm = record { weight = ones; eps = low };
  attn = record {
    q_proj = plain;
    k_proj = plain;
    v_proj = plain;
    o_proj = plain;
    q_proj_bias = none;
    k_proj_bias = none;
    v_proj_bias = some ones;
  };
  attn_norm = record { weight = ones; eps = low };
  mlp = record { gate_proj = plain; up_proj = plain; down_proj = plain };
  moe = none;
}

abbrev plain_model : TensorModel samples
plain_model = record {
  hidden_size = 2;
  num_heads = 1;
  num_kv_heads = 1;
  head_dim = 2;
  ffn_intermediate = 2;
  vocab_size = 3;
  top_k = 1;
  rope_inv_freq = ones;
  rope_inv_freq_size = 1;
  norm_eps = low;
  embeddings = ones;
  lm_head = plain;
  final_norm = ones;
  layers = plain_layer ∷ [];
}

abbrev start : ForwardBuffers samples
start = new_buffers samples

-- The same first two positions, with another third one and used caches.
abbrev other : ForwardBuffers samples
other = record start {
  hidden_states = write_range 4 2 ones start.hidden_states;
  k_cache = ones;
  v_cache = ones;
}

other-Agrees : Agrees samples sort_samples plain_model 5 0 2 0 0 start other
other-Agrees = record {
  same_states = λ i h. sym (write_range_out 4 2 ones start.hidden_states i (inl (omega arith)));
  same_keys = λ i h. absurd (omega arith);
  same_values = λ i h. absurd (omega arith);
  same_rest = refl;
}

forward_position_causal_example :
    (passes samples sort_samples plain_model 5 0 plain_layer (1 + 1 + 3) start).hidden_states
      (1 * 2 + 1)
    ≡ (passes samples sort_samples plain_model 5 0 plain_layer (1 + 1 + 2) other).hidden_states
        (1 * 2 + 1)
forward_position_causal_example =
    forward_position_causal samples sort_samples plain_model 5 0 plain_layer refl 3 2 1 1 start
      other (omega arith) other-Agrees
