-- ===== src/Forward/Agreement.antt =====
-- Two states of the buffers of forward_cpu that have a prefix of their rows in common.
use vllm_cpp.Prelude.{
  ℕ, ◌+◌, ◌-◌, ◌*◌, ◌<◌, ltb, ltb→lt, ◌≡◌, refl, ap, sym, subst, ◌∙◌, List, Bool-cases, inl, inr,
  arith,
}
use mathlib.Core.Path.{fun_ext}
use vllm_cpp.Prelude.Loops.{
  for_range_eq, mul_le_mul_right, write_range, write_range_eq, write_range_in,
}
use vllm_cpp.Float.{Floats}
use vllm_cpp.Attention.{dot}
use vllm_cpp.Engine.{rms_norm}
use vllm_cpp.Engine.Model.{RmsNormParams}
use vllm_cpp.Forward.{TensorModel, ForwardBuffers, cache_width, state_row, add_residual, norm_row}

-- A row written in both of two caches that agree on the rows before it.
pub row_agrees :
    {A : Type 0} (base p w : ℕ) (f u v : ℕ → A) (i : ℕ)
    → ((i : ℕ) → i < p * w → u (base + i) ≡ v (base + i))
    → i < (p + 1) * w
    → write_range (base + p * w) w f u (base + i) ≡ write_range (base + p * w) w f v (base + i)
row_agrees base p w f u v i h lt = elim (Bool-cases (ltb i (p * w))) [
  | inl e ↦ write_range_eq (base + p * w) w f f u v (base + i) (λ j hj. refl) (h i (ltb→lt _ _ e))
  | inr e ↦
      let k = i - p * w in
      let at : base + i ≡ base + p * w + k = ground arith in
      let inside : k < w = grind arith in
      rw at (
        write_range_in (base + p * w) w f u k inside
        ∙ sym (write_range_in (base + p * w) w f v k inside))
]

module _ (fl : Floats) where
  open fl use {Float, of_ℕ, add, mul, div, sqrt}

  rms_norm_eq :
      (x y weight out : ℕ → Float) (dim : ℕ) (eps : Float)
      → ((i : ℕ) → i < dim → x i ≡ y i)
      → rms_norm fl x weight out dim eps ≡ rms_norm fl y weight out dim eps
  unfolding rms_norm dot
  rms_norm_eq x y weight out dim eps h =
      let squares : dot fl dim x x ≡ dot fl dim y y =
        for_range_eq dim 0 _ _ _
          (λ d s lo hi. ap (λ (z : Float). add s (mul z z)) (h d (omega arith))) in
      let scaled : Float → (ℕ → Float) → ℕ → Float = λ sum f.
        write_range 0 dim
          (λ i. mul (mul (weight i) (f i)) (div (of_ℕ 1) (sqrt (add (div sum (of_ℕ dim)) eps))))
          out in
      ap (λ (sum : Float). scaled sum x) squares
      ∙ fun_ext λ j.
        write_range_eq 0 dim _ _ out out j
          (λ i hi.
            ap
              (λ (z : Float).
                mul (mul (weight i) z)
                  (div (of_ℕ 1) (sqrt (add (div (dot fl dim y y) (of_ℕ dim)) eps))))
              (h i hi))
          refl

  module _ (sort : List (Float × ℕ) → List (Float × ℕ)) (model : TensorModel fl) (seq_len : ℕ)
      (l : ℕ) where
    -- Where a row of the caches of the layer begins.
    abbrev pub base : ℕ
    base = l * seq_len * cache_width fl sort model seq_len

    -- Two states of the buffers that have the first `rows` hidden states, the first `keys` rows of
    -- the layer's keys, the first `values` rows of its values and everything outside the hidden
    -- states and the caches in common.
    pub record Agrees (rows keys values : ℕ) (b b' : ForwardBuffers fl) : Type 0 where
      pub same_states :
          (i : ℕ) → i < rows * model.hidden_size → b.hidden_states i ≡ b'.hidden_states i
      pub same_keys :
          (i : ℕ)
          → i < keys * cache_width fl sort model seq_len
          → b.k_cache (base + i) ≡ b'.k_cache (base + i)
      pub same_values :
          (i : ℕ)
          → i < values * cache_width fl sort model seq_len
          → b.v_cache (base + i) ≡ b'.v_cache (base + i)
      pub same_rest : b' ≡ record b {
        k_cache = b'.k_cache;
        v_cache = b'.v_cache;
        hidden_states = b'.hidden_states;
      }

    -- The same buffers with other hidden states and caches.
    abbrev pub swap : ForwardBuffers fl → ForwardBuffers fl → ForwardBuffers fl
    swap b c = record b {
      k_cache = c.k_cache;
      v_cache = c.v_cache;
      hidden_states = c.hidden_states;
    }

    -- To show that an operation keeps two states in agreement, the second may be a swap.
    pub by_swap :
        (op : ForwardBuffers fl → ForwardBuffers fl) (rows keys values keys' values' : ℕ)
        (b b' : ForwardBuffers fl)
        → Agrees rows keys values b b'
        → (Agrees rows keys values b (swap b b')
            → Agrees rows keys' values' (op b) (op (swap b b')))
        → Agrees rows keys' values' (op b) (op b')
    by_swap op rows keys values keys' values' b b' h step =
        subst (λ c. Agrees rows keys' values' (op b) (op c)) (sym h.same_rest)
          (step (record {
            same_states = h.same_states;
            same_keys = h.same_keys;
            same_values = h.same_values;
            same_rest = refl;
          }))

    module _ (rows pos : ℕ) (early : pos < rows) where
      row_index_lt :
          (d : ℕ) → d < model.hidden_size → pos * model.hidden_size + d < rows * model.hidden_size
      row_index_lt d h =
          omega (arith, mul_le_mul_right (pos + 1) rows model.hidden_size (omega (arith, early)))

      pub norm_row-Agrees :
          (norm : RmsNormParams fl) (keys values : ℕ) (b b' : ForwardBuffers fl)
          → Agrees rows keys values b b'
          → Agrees rows keys values
              (norm_row fl sort model seq_len norm pos b)
              (norm_row fl sort model seq_len norm pos b')
      unfolding norm_row state_row
      norm_row-Agrees norm keys values b b' h =
          by_swap (norm_row fl sort model seq_len norm pos) rows keys values keys values b b' h λ a.
            record {
              same_states = a.same_states;
              same_keys = a.same_keys;
              same_values = a.same_values;
              same_rest =
                  ap
                    (λ (x : ℕ → Float). record b {
                      k_cache = b'.k_cache;
                      v_cache = b'.v_cache;
                      hidden_states = b'.hidden_states;
                      attn_out = x;
                    })
                    (sym (
                      rms_norm_eq _ _ norm.weight b.attn_out model.hidden_size norm.eps
                        (λ d hd. a.same_states (pos * model.hidden_size + d) (row_index_lt d hd))));
            }

      pub add_residual-Agrees :
          (out : ℕ → Float) (keys values : ℕ) (b b' : ForwardBuffers fl)
          → Agrees rows keys values b b'
          → Agrees rows keys values
              (add_residual fl sort model seq_len pos out b)
              (add_residual fl sort model seq_len pos out b')
      unfolding add_residual state_row
      add_residual-Agrees out keys values b b' h =
          by_swap (add_residual fl sort model seq_len pos out) rows keys values keys values b b' h
            λ a. record {
              same_states = λ i hi.
                  write_range_eq (pos * model.hidden_size) model.hidden_size _ _ b.hidden_states
                    b'.hidden_states i
                    (λ d hd.
                      ap (λ (x : Float). add x (out d))
                        (a.same_states (pos * model.hidden_size + d) (row_index_lt d hd)))
                    (a.same_states i hi);
              same_keys = a.same_keys;
              same_values = a.same_values;
              same_rest = refl;
            }
