-- ===== src/Forward/Rows.antt =====
-- Which cells one position of a layer of forward_cpu changes.
use vllm_cpp.Prelude.{
  ℕ, zero, suc, arith, ◌+◌, ◌*◌, ◌≤◌, ◌<◌, List, Option-cases, Bool-cases, ◌≡◌, refl, ap, ◌∙◌, ◌⊎◌,
  inl, inr,
}
use vllm_cpp.Prelude.Loops.{for_range, for_range_snoc, mul_le_mul_right, write_range_out}
use vllm_cpp.Float.{Floats}
use vllm_cpp.Engine.Model.{RmsNormParams}
use vllm_cpp.Forward.{
  TensorModel, TensorLayer, ForwardBuffers, cache_width, add_residual, norm_row, cache_key,
  cache_value, query, attend, ffn_forward, has_gate, mlp_forward, forward_position,
}

abbrev pub IsOutside : ℕ → ℕ → ℕ → Type 0
IsOutside off n i = (i < off) ⊎ (off + n ≤ i)

module _ (fl : Floats) (sort : List (fl.Float × ℕ) → List (fl.Float × ℕ)) (model : TensorModel fl)
    (seq_len : ℕ) where
  -- The offset of a position's row in the caches of a layer.
  abbrev pub cache_offset : ℕ → ℕ → ℕ
  cache_offset l pos =
      l * seq_len * cache_width fl sort model seq_len + pos * cache_width fl sort model seq_len

  -- The states and the caches change in the rows of the layer and the position at most.
  pub record OnlyWritesRow (l pos : ℕ) (b b' : ForwardBuffers fl) : Type 0 where
    pub states :
        (i : ℕ)
        → IsOutside (pos * model.hidden_size) model.hidden_size i
        → b'.hidden_states i ≡ b.hidden_states i
    pub keys :
        (i : ℕ)
        → IsOutside (cache_offset l pos) (cache_width fl sort model seq_len) i
        → b'.k_cache i ≡ b.k_cache i
    pub values :
        (i : ℕ)
        → IsOutside (cache_offset l pos) (cache_width fl sort model seq_len) i
        → b'.v_cache i ≡ b.v_cache i

  module _ (l pos : ℕ) where
    OnlyWritesRow-trans :
        (a b c : ForwardBuffers fl)
        → OnlyWritesRow l pos a b
        → OnlyWritesRow l pos b c
        → OnlyWritesRow l pos a c
    OnlyWritesRow-trans a b c h k = record {
      states = λ i o. k.states i o ∙ h.states i o;
      keys = λ i o. k.keys i o ∙ h.keys i o;
      values = λ i o. k.values i o ∙ h.values i o;
    }

    -- What touches none of the three.
    OnlyWritesRow-same :
        (b b' : ForwardBuffers fl)
        → b'.hidden_states ≡ b.hidden_states
        → b'.k_cache ≡ b.k_cache
        → b'.v_cache ≡ b.v_cache
        → OnlyWritesRow l pos b b'
    OnlyWritesRow-same b b' s k v = record {
      states = λ i o. ap (λ f. f i) s;
      keys = λ i o. ap (λ f. f i) k;
      values = λ i o. ap (λ f. f i) v;
    }

    add_residual-OnlyWritesRow :
        (out : ℕ → fl.Float) (b : ForwardBuffers fl)
        → OnlyWritesRow l pos b (add_residual fl sort model seq_len pos out b)
    unfolding add_residual
    add_residual-OnlyWritesRow out b = record {
      states =
          λ i o. write_range_out (pos * model.hidden_size) model.hidden_size _ b.hidden_states i o;
      keys = λ i o. refl;
      values = λ i o. refl;
    }

    norm_row-OnlyWritesRow :
        (norm : RmsNormParams fl) (b : ForwardBuffers fl)
        → OnlyWritesRow l pos b (norm_row fl sort model seq_len norm pos b)
    unfolding norm_row
    norm_row-OnlyWritesRow norm b = OnlyWritesRow-same _ _ refl refl refl

    module _ (layer : TensorLayer fl) where
      cache_key-OnlyWritesRow :
          (b : ForwardBuffers fl)
          → OnlyWritesRow l pos b (cache_key fl sort model seq_len layer l pos b)
      unfolding cache_key
      cache_key-OnlyWritesRow b = record {
        states = λ i o. refl;
        keys = λ i o.
            write_range_out (cache_offset l pos) (cache_width fl sort model seq_len) _ b.k_cache i
              o;
        values = λ i o. refl;
      }

      cache_value-OnlyWritesRow :
          (b : ForwardBuffers fl)
          → OnlyWritesRow l pos b (cache_value fl sort model seq_len layer l pos b)
      unfolding cache_value
      cache_value-OnlyWritesRow b = record {
        states = λ i o. refl;
        keys = λ i o. refl;
        values = λ i o.
            write_range_out (cache_offset l pos) (cache_width fl sort model seq_len) _ b.v_cache i
              o;
      }

      query-OnlyWritesRow :
          (b : ForwardBuffers fl) → OnlyWritesRow l pos b (query fl sort model seq_len layer pos b)
      unfolding query
      query-OnlyWritesRow b = OnlyWritesRow-same _ _ refl refl refl

      attend-OnlyWritesRow :
          (b : ForwardBuffers fl)
          → OnlyWritesRow l pos b (attend fl sort model seq_len layer l pos b)
      unfolding attend add_residual
      attend-OnlyWritesRow b = record {
        states = λ i o.
            write_range_out (pos * model.hidden_size) model.hidden_size _ b.hidden_states i o;
        keys = λ i o. refl;
        values = λ i o. refl;
      }

      mlp_forward-OnlyWritesRow :
          (b : ForwardBuffers fl)
          → OnlyWritesRow l pos b (mlp_forward fl sort model seq_len layer b)
      unfolding mlp_forward ffn_forward
      mlp_forward-OnlyWritesRow b = elim (Option-cases layer.moe) [
        | inl e ↦ elim (Bool-cases (has_gate fl sort model seq_len layer.mlp)) [
          | inl g ↦ rw (e, mlp_forward) (rw g (OnlyWritesRow-same _ _ refl refl refl))
          | inr g ↦ rw (e, mlp_forward) (rw g (OnlyWritesRow-same _ _ refl refl refl))
        ]
        | inr (moe, e) ↦ rw (e, mlp_forward) (OnlyWritesRow-same _ _ refl refl refl)
      ]

      -- One position changes no other row of the hidden states, and no other row of the caches, of
      -- this layer or another.
      pub forward_position-OnlyWritesRow :
          (b : ForwardBuffers fl)
          → OnlyWritesRow l pos b (forward_position fl sort model seq_len layer l pos b)
      unfolding forward_position
      forward_position-OnlyWritesRow b =
          let s = norm_row-OnlyWritesRow layer.input_norm b in
          let s = OnlyWritesRow-trans _ _ _ s (cache_key-OnlyWritesRow _) in
          let s = OnlyWritesRow-trans _ _ _ s (cache_value-OnlyWritesRow _) in
          let s = OnlyWritesRow-trans _ _ _ s (query-OnlyWritesRow _) in
          let s = OnlyWritesRow-trans _ _ _ s (attend-OnlyWritesRow _) in
          let s = OnlyWritesRow-trans _ _ _ s (norm_row-OnlyWritesRow layer.attn_norm _) in
          let s = OnlyWritesRow-trans _ _ _ s (mlp_forward-OnlyWritesRow _) in
          OnlyWritesRow-trans _ _ _ s (add_residual-OnlyWritesRow _ _)

  module _ (l : ℕ) (layer : TensorLayer fl) where
    abbrev pub passes : ℕ → ForwardBuffers fl → ForwardBuffers fl
    passes n b = for_range n 0 (forward_position fl sort model seq_len layer l) b

    -- The state of a position after the passes of a layer is the one that its own pass left,
    -- whatever passes follow it.
    pub forward_position_later :
        (later p d : ℕ) (b : ForwardBuffers fl)
        → d < model.hidden_size
        → (passes (p + 1 + later) b).hidden_states (p * model.hidden_size + d)
          ≡ (passes (p + 1) b).hidden_states (p * model.hidden_size + d)
    forward_position_later zero p d b h = let e : p + 1 + zero ≡ p + 1 = omega arith in rw e refl
    forward_position_later (suc later) p d b h =
        let n = p + 1 + later in
        let e : p + 1 + suc later ≡ n + 1 = omega arith in
        let w = forward_position-OnlyWritesRow l n layer (passes n b) in
        rw e (
          rw (for_range_snoc n (forward_position fl sort model seq_len layer l) b) (
            w.states (p * model.hidden_size + d)
              (inl (omega (arith, mul_le_mul_right (p + 1) n model.hidden_size (omega arith))))
            ∙ forward_position_later later p d b h))
