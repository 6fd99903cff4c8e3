-- ===== src/Forward/Causal.antt =====
-- Which positions the pass of a position of forward_cpu reads.
use vllm_cpp.Prelude.{
  ℕ, zero, suc, ◌+◌, ◌*◌, ◌/◌, ◌≤◌, ◌<◌, ◌≡◌, refl, sym, subst, ◌∙◌, List, Option-cases, Bool-cases,
  inl, inr, arith,
}
use vllm_cpp.Prelude.Loops.{for_range, for_range_snoc, mul_le_mul_right}
use vllm_cpp.Float.{Floats}
use vllm_cpp.Attention.{compute_attention}
use vllm_cpp.Attention.Prefix.{compute_attention_eq}
use vllm_cpp.Forward.{
  TensorModel, TensorLayer, ForwardBuffers, cache_width, total_heads_dim, qmatmul, add_residual,
  cache_key, cache_value, query, attend, ffn_forward, has_gate, mlp_forward, forward_position,
}
use vllm_cpp.Forward.Agreement.{
  Agrees, by_swap, swap, base, row_agrees, norm_row-Agrees, add_residual-Agrees,
}
use vllm_cpp.Forward.Rows.{passes, forward_position_later}

module _ (fl : Floats) where
  open fl use {Float}

  module _ (sort : List (Float × ℕ) → List (Float × ℕ)) (model : TensorModel fl) (seq_len : ℕ)
      (l : ℕ) where
    module _ (rows pos : ℕ) (early : pos < rows) where
      module _ (layer : TensorLayer fl) where
        cache_key-Agrees :
            (b b' : ForwardBuffers fl)
            → Agrees fl sort model seq_len l rows pos pos b b'
            → Agrees fl sort model seq_len l rows
                (pos + 1)
                pos
                (cache_key fl sort model seq_len layer l pos b)
                (cache_key fl sort model seq_len layer l pos b')
        unfolding cache_key
        cache_key-Agrees b b' h =
            by_swap fl sort model seq_len l (cache_key fl sort model seq_len layer l pos) rows pos
              pos (pos + 1) pos b b' h
              λ a. record {
                same_states = a.same_states;
                same_keys = λ i hi.
                    row_agrees (base fl sort model seq_len l) pos
                      (cache_width fl sort model seq_len) _ b.k_cache b'.k_cache i a.same_keys hi;
                same_values = a.same_values;
                same_rest = refl;
              }

        cache_value-Agrees :
            (b b' : ForwardBuffers fl)
            → Agrees fl sort model seq_len l rows (pos + 1) pos b b'
            → Agrees fl sort model seq_len l rows
                (pos + 1)
                (pos + 1)
                (cache_value fl sort model seq_len layer l pos b)
                (cache_value fl sort model seq_len layer l pos b')
        unfolding cache_value
        cache_value-Agrees b b' h =
            by_swap fl sort model seq_len l (cache_value fl sort model seq_len layer l pos) rows
              (pos + 1) pos (pos + 1) (pos + 1) b b' h
              λ a. record {
                same_states = a.same_states;
                same_keys = a.same_keys;
                same_values = λ i hi.
                    row_agrees (base fl sort model seq_len l) pos
                      (cache_width fl sort model seq_len) _ b.v_cache b'.v_cache i a.same_values hi;
                same_rest = refl;
              }

        query-Agrees :
            (keys values : ℕ) (b b' : ForwardBuffers fl)
            → Agrees fl sort model seq_len l rows keys values b b'
            → Agrees fl sort model seq_len l rows keys values
                (query fl sort model seq_len layer pos b)
                (query fl sort model seq_len layer pos b')
        unfolding query
        query-Agrees keys values b b' h =
            by_swap fl sort model seq_len l (query fl sort model seq_len layer pos) rows keys values
              keys values b b' h
              λ a. record {
                same_states = a.same_states;
                same_keys = a.same_keys;
                same_values = a.same_values;
                same_rest = refl;
              }

        -- The attention's result and its projection, from a result.
        abbrev attended : (ℕ → Float) → ForwardBuffers fl → ForwardBuffers fl
        attended result b = record b {
          attn_result = result;
          attn_out =
              qmatmul fl result 1 (total_heads_dim fl sort model seq_len) layer.attn.o_proj
                model.hidden_size b.attn_out;
        }

        attend-Agrees :
            (b b' : ForwardBuffers fl)
            → model.num_heads ≡ model.num_heads / model.num_kv_heads * model.num_kv_heads
            → Agrees fl sort model seq_len l rows (pos + 1) (pos + 1) b b'
            → Agrees fl sort model seq_len l rows
                (pos + 1)
                (pos + 1)
                (attend fl sort model seq_len layer l pos b)
                (attend fl sort model seq_len layer l pos b')
        unfolding attend cache_width
        attend-Agrees b b' groups h =
            by_swap fl sort model seq_len l (attend fl sort model seq_len layer l pos) rows
              (pos + 1) (pos + 1) (pos + 1) (pos + 1) b b' h
              λ a.
                let result : ForwardBuffers fl → ℕ → Float = λ c.
                  compute_attention fl b.attn_result b.q_buf
                    (λ i. c.k_cache (base fl sort model seq_len l + i))
                    (λ i. c.v_cache (base fl sort model seq_len l + i)) (pos + 1) model.num_heads
                    model.head_dim model.num_kv_heads in
                let same : result b ≡ result b' =
                  compute_attention_eq fl model.num_heads model.num_kv_heads model.head_dim
                    (pos + 1) groups b.q_buf b.attn_result _ _ _ _ a.same_keys a.same_values in
                let next : (ℕ → Float) → ForwardBuffers fl → ForwardBuffers fl = λ r c.
                  add_residual fl sort model seq_len pos (attended r c).attn_out (attended r c) in
                subst
                  (λ r.
                    Agrees fl sort model seq_len l rows (pos + 1) (pos + 1) (next (result b) b)
                      (next r (swap fl sort model seq_len l b b')))
                  same
                  (add_residual-Agrees fl sort model seq_len l rows pos early
                    (attended (result b) b).attn_out (pos + 1) (pos + 1) (attended (result b) b)
                    (attended (result b) (swap fl sort model seq_len l b b'))
                    (record {
                      same_states = a.same_states;
                      same_keys = a.same_keys;
                      same_values = a.same_values;
                      same_rest = refl;
                    }))

        mlp_forward-Agrees :
            (keys values : ℕ) (b b' : ForwardBuffers fl)
            → Agrees fl sort model seq_len l rows keys values b b'
            → Agrees fl sort model seq_len l rows keys values
                (mlp_forward fl sort model seq_len layer b)
                (mlp_forward fl sort model seq_len layer b')
        unfolding mlp_forward ffn_forward
        mlp_forward-Agrees keys values b b' h =
            by_swap fl sort model seq_len l (mlp_forward fl sort model seq_len layer) rows keys
              values keys values b b' h
              λ a. elim (Option-cases layer.moe) [
                | inl e ↦ elim (Bool-cases (has_gate fl sort model seq_len layer.mlp)) [
                  | inl g ↦
                      rw (e, mlp_forward)
                        (rw g (record {
                          same_states = a.same_states;
                          same_keys = a.same_keys;
                          same_values = a.same_values;
                          same_rest = refl;
                        }))
                  | inr g ↦ rw (e, mlp_forward) (rw g a)
                ]
                | inr (moe, e) ↦
                    rw (e, mlp_forward)
                      (record {
                        same_states = a.same_states;
                        same_keys = a.same_keys;
                        same_values = a.same_values;
                        same_rest = refl;
                      })
              ]

        last_residual-Agrees :
            (keys values : ℕ) (b b' : ForwardBuffers fl)
            → Agrees fl sort model seq_len l rows keys values b b'
            → Agrees fl sort model seq_len l rows keys values
                (add_residual fl sort model seq_len pos b.mlp_out b)
                (add_residual fl sort model seq_len pos b'.mlp_out b')
        last_residual-Agrees keys values b b' h =
            by_swap fl sort model seq_len l
              (λ c. add_residual fl sort model seq_len pos c.mlp_out c) rows keys values keys values
              b b' h
              λ a.
                add_residual-Agrees fl sort model seq_len l rows pos early b.mlp_out keys values b
                  (swap fl sort model seq_len l b b') a

        -- The pass of a position, where the caches agree before it: they agree on its rows too.
        forward_position-Agrees :
            (b b' : ForwardBuffers fl)
            → model.num_heads ≡ model.num_heads / model.num_kv_heads * model.num_kv_heads
            → Agrees fl sort model seq_len l rows pos pos b b'
            → Agrees fl sort model seq_len l rows
                (pos + 1)
                (pos + 1)
                (forward_position fl sort model seq_len layer l pos b)
                (forward_position fl sort model seq_len layer l pos b')
        unfolding forward_position
        forward_position-Agrees b b' groups h =
            let s =
              norm_row-Agrees fl sort model seq_len l rows pos early layer.input_norm pos pos _ _
                h in
            let s = cache_key-Agrees _ _ s in
            let s = cache_value-Agrees _ _ s in
            let s = query-Agrees (pos + 1) (pos + 1) _ _ s in
            let s = attend-Agrees _ _ groups s in
            let s =
              norm_row-Agrees fl sort model seq_len l rows pos early layer.attn_norm (pos + 1)
                (pos + 1) _ _ s in
            let s = mlp_forward-Agrees (pos + 1) (pos + 1) _ _ s in
            last_residual-Agrees (pos + 1) (pos + 1) _ _ s

    module _ (layer : TensorLayer fl)
        (groups : model.num_heads ≡ model.num_heads / model.num_kv_heads * model.num_kv_heads) where
      passes-Agrees :
          (rows n : ℕ) (b b' : ForwardBuffers fl)
          → n ≤ rows
          → Agrees fl sort model seq_len l rows 0 0 b b'
          → Agrees fl sort model seq_len l rows n n
              (passes fl sort model seq_len l layer n b)
              (passes fl sort model seq_len l layer n b')
      passes-Agrees rows zero b b' fits h = unfold for_range in h
      passes-Agrees rows (suc n) b b' fits h =
          let body = forward_position fl sort model seq_len layer l in
          let e : suc n ≡ n + 1 = omega arith in
          rw e (
            rw (for_range_snoc n body b, for_range_snoc n body b')
              (forward_position-Agrees rows n (omega arith) layer _ _ groups
                (passes-Agrees rows n b b' (omega arith) h)))

      -- When the key-value heads divide the query heads, the state of a position after the passes of
      -- a layer depends on nothing behind it: two runs whose buffers have the hidden states up to the
      -- position and the buffers for one position in common end with the same state at the position,
      -- whatever their later hidden states are, whatever their caches held, and however many later
      -- positions they pass.
      pub forward_position_causal :
          (later later' p d : ℕ) (b b' : ForwardBuffers fl)
          → d < model.hidden_size
          → Agrees fl sort model seq_len l (p + 1) 0 0 b b'
          → (passes fl sort model seq_len l layer (p + 1 + later) b).hidden_states
              (p * model.hidden_size + d)
            ≡ (passes fl sort model seq_len l layer (p + 1 + later') b').hidden_states
                (p * model.hidden_size + d)
      forward_position_causal later later' p d b b' h a =
          forward_position_later fl sort model seq_len l layer later p d b h
          ∙ (passes-Agrees (p + 1) (p + 1) b b' (omega arith) a).same_states
              (p * model.hidden_size + d)
              (omega (arith, h, mul_le_mul_right (p + 1) (p + 1) model.hidden_size (omega arith)))
          ∙ sym (forward_position_later fl sort model seq_len l layer later' p d b' h)
