-- ===== src/Engine/Decode.antt =====
-- PagedEngine::run_decode of src/paged_engine.cpp.
use vllm_cpp.Prelude.{ℕ, ◌+◌, ◌-◌, ◌*◌, List, [], ◌∷◌, ◌++◌, ℤ, pos, some}
use vllm_cpp.Prelude.Loops.{write_range}
use vllm_cpp.Config.{repeat_penalty}
use vllm_cpp.Float.{Floats}
use vllm_cpp.KvCache.Pool.{BlockPool}
use vllm_cpp.Request.{Request, get_seq_len}
use vllm_cpp.Attention.{zero_float, paged_attention}
use vllm_cpp.Engine.{rms_norm, matmul_transpose, add_vectors}
use vllm_cpp.Engine.Model.{Qwen36TransformerLayer, Qwen36Model, Buffers}
use vllm_cpp.Engine.Layer.{project, feed_forward, norm_after, project_o, total_q_dim}
use vllm_cpp.Engine.Prefill.{logits_vector}
use vllm_cpp.Sampling.{sample_token}

-- `back()`, or 0 for an empty list.
unfoldable pub last_token : List ℕ → ℕ
last_token [] = 0
last_token (t ∷ []) = t
last_token (t ∷ u ∷ tokens) = last_token (u ∷ tokens)

unfoldable pub input_token : Request → ℕ
unfolding last_token
input_token req = elim req.generated_tokens [
  | [] ↦ last_token req.prompt_tokens
  | t ∷ tokens ↦ last_token (t ∷ tokens)
]

module _ (fl : Floats) where
  open fl use {Float, of_bits}

  module _ (sort : List (Float × ℕ) → List (Float × ℕ)) (model : Qwen36Model fl) where
    unfoldable pub attend_paged : List ℤ → ℤ → ℕ → Buffers fl × BlockPool → Buffers fl
    unfolding paged_attention total_q_dim
    attend_paged table l seq_len (b, pool) = record b {
      attn_out =
          paged_attention fl b.q_buf table seq_len pool model.num_heads model.num_kv_heads
            model.head_dim l (write_range 0 (total_q_dim fl model) (λ i. zero_float fl) b.attn_out);
    }

    -- The request has a token, so seq_len - 1 is its position. hidden_out is the output of the projection and the residual that it is added to.
    unfoldable pub decode_layer :
        Qwen36TransformerLayer fl → ℤ → List ℤ → ℕ → Buffers fl × BlockPool → Buffers fl × BlockPool
    unfolding project attend_paged project_o add_vectors norm_after feed_forward
    decode_layer layer l table seq_len (b, pool) =
        let projected =
          project fl model layer l table (seq_len - 1) seq_len b.hidden_out (b, pool) in
        let b1 = project_o fl model layer (attend_paged table l seq_len projected) in
        let mid : ℕ → Float =
          add_vectors fl b1.hidden_out b1.hidden_out b1.hidden_out model.hidden_size in
        let b2 =
          feed_forward fl model sort layer
            (norm_after fl model layer mid (record b1 { hidden_out = mid })) in
        (
          record b2 {
            hidden_out = add_vectors fl b2.hidden_out b2.hidden_out b2.mlp_buf model.hidden_size;
          },
          projected.1,
        )

    unfoldable pub decode_layers :
        List (Qwen36TransformerLayer fl)
        → ℕ
        → List ℤ
        → ℕ
        → Buffers fl × BlockPool
        → Buffers fl × BlockPool
    unfolding decode_layer
    decode_layers [] l table seq_len s = s
    decode_layers (layer ∷ layers) l table seq_len s =
        decode_layers layers (l + 1) table seq_len (decode_layer layer (pos l) table seq_len s)

    unfoldable pub decode_logits : Buffers fl → Buffers fl × List Float
    unfolding rms_norm matmul_transpose logits_vector
    decode_logits b =
        let norm : ℕ → Float =
          rms_norm fl b.hidden_out model.final_norm b.norm_buf model.hidden_size model.norm_eps in
        (
          record b { norm_buf = norm },
          logits_vector fl model.vocab_size
              (matmul_transpose fl model.lm_head model.vocab_size model.hidden_size norm 1
                (λ i. zero_float fl))
              0,
        )

    -- The new token, with the buffers and the cache; `r` is the random number.
    pub record Decoded : Type 0 where
      pub token : ℕ
      pub buffers : Buffers fl
      pub pool : BlockPool

    unfoldable pub run_decode : Float → Request → Buffers fl → BlockPool → Decoded
    unfolding input_token decode_layers decode_logits sample_token get_seq_len
    run_decode r req b pool =
        let input : ℕ → Float =
          write_range 0 model.hidden_size
            (λ i. model.embeddings (input_token req * model.hidden_size + i)) b.hidden_out in
        let s =
          decode_layers model.layers 0 req.block_table (get_seq_len req)
            (record b { hidden_out = input }, pool) in
        let (b', logits) = decode_logits s.0 in
        record {
          token =
              sample_token fl sort r logits (of_bits req.temperature) (of_bits req.top_p)
                (of_bits repeat_penalty) (some (req.prompt_tokens ++ req.generated_tokens));
          buffers = b';
          pool = s.1;
        }
