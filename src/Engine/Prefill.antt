-- ===== src/Engine/Prefill.antt =====
-- PagedEngine::run_prefill of src/paged_engine.cpp.
use vllm_cpp.Prelude.{
  ℕ, zero, suc, ◌+◌, ◌-◌, ◌*◌, ltb, is_empty, if◌then◌else◌, List, [], ◌∷◌, ◌++◌, length, ℤ, pos,
  none, some,
}
use vllm_cpp.Prelude.Loops.{for_range, write_range}
use vllm_cpp.Prelude.Assoc.{find?}
use vllm_cpp.Config.{temperature, top_p, repeat_penalty}
use vllm_cpp.Float.{Floats}
use vllm_cpp.KvCache.Pool.{BlockPool}
use vllm_cpp.KvCache.Manager.{alloc_blocks}
use vllm_cpp.Request.{Request, get_num_blocks}
use vllm_cpp.Scheduler.State.{Scheduler}
use vllm_cpp.Scheduler.Calls.{grow_table}
use vllm_cpp.Attention.{zero_float, read_kv_prefill, compute_attention}
use vllm_cpp.Engine.{rms_norm, matmul_transpose}
use vllm_cpp.Engine.Model.{Qwen36TransformerLayer, Qwen36Model, Buffers}
use vllm_cpp.Engine.Layer.{project, feed_forward, norm_after, project_o}
use vllm_cpp.Sampling.{sample_token}

-- The blocks of the table, allocated when there are none.
unfoldable pub prefill_table : Request → BlockPool → List ℤ × BlockPool
unfolding alloc_blocks
prefill_table req pool =
    let r = alloc_blocks (get_num_blocks req) pool in
    if is_empty req.block_table then (r.out, r.pool) else (req.block_table, pool)

module _ (fl : Floats) where
  open fl use {Float, of_bits, add}

  -- all_hidden + pos * hidden
  unfoldable pub hidden_row : ℕ → (ℕ → Float) → ℕ → Float
  hidden_row off all i = all (off + i)

  -- add_vectors into a row of all_hidden.
  unfoldable pub add_row : ℕ → ℕ → (ℕ → Float) → (ℕ → Float) → ℕ → Float
  add_row off n x all = write_range off n (λ i. add (all (off + i)) (x i)) all

  -- The embeddings of the prompt; a token that the vocabulary does not have leaves zeros.
  unfoldable pub embed : ℕ → ℕ → (ℕ → Float) → ℕ → List ℕ → (ℕ → Float) → ℕ → Float
  embed hidden vocab_size embeddings p [] all = all
  embed hidden vocab_size embeddings p (id ∷ tokens) all =
      embed hidden vocab_size embeddings (p + 1) tokens (
        if ltb id vocab_size
        then write_range (p * hidden) hidden (λ i. embeddings (id * hidden + i)) all
        else all)

  unfoldable pub logits_vector : ℕ → (ℕ → Float) → ℕ → List Float
  logits_vector zero f i = []
  logits_vector (suc n) f i = f i ∷ logits_vector n f (i + 1)

  -- The state of the loops: the buffers, the cache and all_hidden.
  pub record Prefilling : Type 0 where
    pub buffers : Buffers fl
    pub pool : BlockPool
    pub all_hidden : ℕ → Float

  module _ (sort : List (Float × ℕ) → List (Float × ℕ)) (model : Qwen36Model fl) where
    unfoldable pub attend_contiguous : List ℤ → ℤ → ℕ → Buffers fl × BlockPool → Buffers fl
    unfolding read_kv_prefill compute_attention
    attend_contiguous table l seq_len (b, pool) =
        let kv = read_kv_prefill fl table seq_len l pool (b.k_contiguous, b.v_contiguous) in
        record b {
          k_contiguous = kv.0;
          v_contiguous = kv.1;
          attn_out =
              compute_attention fl b.attn_out b.q_buf kv.0 kv.1 seq_len model.num_heads
                model.head_dim model.num_kv_heads;
        }

    unfoldable pub prefill_position :
        Qwen36TransformerLayer fl → ℤ → List ℤ → ℕ → Prefilling → Prefilling
    unfolding project attend_contiguous project_o norm_after feed_forward hidden_row add_row
    prefill_position layer l table p s =
        let off = p * model.hidden_size in
        let projected =
          project fl model layer l table p (p + 1) (hidden_row off s.all_hidden)
            (s.buffers, s.pool) in
        let b1 = project_o fl model layer (attend_contiguous table l (p + 1) projected) in
        let mid : ℕ → Float = add_row off model.hidden_size b1.hidden_out s.all_hidden in
        let b2 =
          feed_forward fl model sort layer (norm_after fl model layer (hidden_row off mid) b1) in
        record {
          buffers = b2;
          pool = projected.1;
          all_hidden = add_row off model.hidden_size b2.mlp_buf mid;
        }

    unfoldable pub prefill_layers :
        List (Qwen36TransformerLayer fl) → ℕ → List ℤ → ℕ → Prefilling → Prefilling
    unfolding for_range prefill_position
    prefill_layers [] l table seq_len s = s
    prefill_layers (layer ∷ layers) l table seq_len s =
        prefill_layers layers (l + 1) table seq_len
          (for_range seq_len 0 (prefill_position layer (pos l) table) s)

    -- The layers over the prompt.
    unfoldable pub prefill_prompt : Request → Buffers fl → BlockPool → Prefilling
    unfolding prefill_layers prefill_table embed
    prefill_prompt req b pool =
        let (table, pool') = prefill_table req pool in
        prefill_layers model.layers 0 table (length req.prompt_tokens) (record {
          buffers = b;
          pool = pool';
          all_hidden =
              embed model.hidden_size model.vocab_size model.embeddings 0 req.prompt_tokens
                (λ i. zero_float fl);
        })

    unfoldable pub prefill_logits : ℕ → Prefilling → Buffers fl × List Float
    unfolding rms_norm matmul_transpose logits_vector hidden_row
    prefill_logits seq_len s =
        let norm : ℕ → Float =
          rms_norm fl (hidden_row ((seq_len - 1) * model.hidden_size) s.all_hidden) model.final_norm
            s.buffers.norm_buf model.hidden_size model.norm_eps in
        (
          record (s.buffers) { norm_buf = norm },
          logits_vector model.vocab_size
              (matmul_transpose fl model.lm_head model.vocab_size model.hidden_size norm 1
                (λ i. zero_float fl))
              0,
        )

    -- get_request returns a copy: the first token and the block for it are put into the copy, which
    -- nothing keeps. Only what the allocation does to the pool stays. `r` is the random number.
    unfoldable pub first_token_copy : Float → List Float → Request → BlockPool → Request × BlockPool
    unfolding sample_token grow_table
    first_token_copy r logits req pool =
        grow_table
          (record req {
            generated_tokens =
                req.generated_tokens
                ++ (sample_token fl sort r logits (of_bits temperature) (of_bits top_p)
                      (of_bits repeat_penalty) (some req.prompt_tokens)
                    ∷ []);
          })
          pool

    unfoldable pub run_prefill : Float → Request → Buffers fl → Scheduler → Buffers fl × Scheduler
    unfolding prefill_prompt prefill_logits first_token_copy find?
    run_prefill r req b sched =
        if is_empty req.prompt_tokens
        then (b, sched)
        else let s = prefill_prompt req b sched.pool in
          let (b', logits) = prefill_logits (length req.prompt_tokens) s in
          (
            b',
            record sched {
              pool = elim (find? req.request_id sched.requests) [
                | none ↦ s.pool
                | some copy ↦ (first_token_copy r logits copy s.pool).1
              ];
            },
          )
