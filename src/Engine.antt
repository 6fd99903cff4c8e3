-- ===== src/Engine.antt =====
-- The arithmetic of src/paged_engine.cpp: the helpers that the layers are made of, and `moe_forward`.
-- A buffer is a function of the index. `std::sort` by descending score is a parameter, since it may
-- put equal scores in any order.
pub mod Products
pub mod Rope
pub mod Model
pub mod Layer
pub mod InPlace
pub mod Prefill
pub mod Decode
pub mod Step
pub mod Cache
pub mod Isolation
pub mod Growth
pub mod Leaks
pub mod Ownership
pub mod Calls
pub mod History
use vllm_cpp.Prelude.{
  ℕ, zero, suc, ◌+◌, ◌-◌, ◌*◌, ◌/◌, leb, if◌then◌else◌, List, [], ◌∷◌, take, min, Option, none,
  some,
}
use vllm_cpp.Prelude.Loops.{for_range, write_range}
use vllm_cpp.Float.{Floats}
use vllm_cpp.Attention.{zero_float, dot, larger}

module _ (fl : Floats) where
  open fl use {Float, of_ℕ, epsilon, add, sub, mul, div, neg, exp, sqrt, cos, sin}

  unfoldable pub rms_norm : (ℕ → Float) → (ℕ → Float) → (ℕ → Float) → ℕ → Float → ℕ → Float
  unfolding dot
  rms_norm input weight out dim eps =
      let inv_rms = div (of_ℕ 1) (sqrt (add (div (dot fl dim input input) (of_ℕ dim)) eps)) in
      write_range 0 dim (λ i. mul (mul (weight i) (input i)) inv_rms) out

  unfoldable pub matmul_transpose : (ℕ → Float) → ℕ → ℕ → (ℕ → Float) → ℕ → (ℕ → Float) → ℕ → Float
  matmul_transpose a m k b n c =
      for_range m 0
        (λ i c.
          for_range n 0
            (λ j.
              write_range (i * n + j) 1 (λ z. dot fl k (λ p. a (i * k + p)) (λ p. b (j * k + p))))
            c)
        c

  unfoldable pub add_vectors : (ℕ → Float) → (ℕ → Float) → (ℕ → Float) → ℕ → ℕ → Float
  add_vectors out a b n = write_range 0 n (λ i. add (a i) (b i)) out

  unfoldable pub add_bias : (ℕ → Float) → (ℕ → Float) → ℕ → ℕ → Float
  add_bias out bias n = write_range 0 n (λ i. add (out i) (bias i)) out

  unfoldable pub swiglu_func : Float → Float
  swiglu_func x = mul x (div (of_ℕ 1) (add (of_ℕ 1) (exp (neg x))))

  -- One pair of a head, turned by the angle of its frequency.
  unfoldable pub rotate_pair : ℕ → Float → (ℕ → Float) → ℕ → Float
  rotate_pair at freq x =
      let x0 = x at in
      let x1 = x (at + 1) in
      write_range (at + 1) 1 (λ z. add (mul x0 (sin freq)) (mul x1 (cos freq)))
        (write_range at 1 (λ z. sub (mul x0 (cos freq)) (mul x1 (sin freq))) x)

  -- The frequency index is std::min(i, inv_freq_size - 1), for a nonempty table.
  unfoldable pub rope_single : (ℕ → Float) → ℕ → ℕ → ℕ → (ℕ → Float) → ℕ → ℕ → Float
  unfolding rotate_pair
  rope_single x dim head_dim position inv_freq inv_freq_size =
      for_range (dim / head_dim) 0
        (λ h x.
          for_range (head_dim / 2) 0
            (λ i. rotate_pair (h * head_dim + 2 * i) (
              mul (inv_freq (if leb i (inv_freq_size - 1) then i else inv_freq_size - 1))
                (of_ℕ position)))
            x)
        x

  pub record Expert : Type 0 where
    pub gate_proj : ℕ → Float
    pub up_proj : ℕ → Float
    pub down_proj : ℕ → Float

  -- The probabilities of the experts: a softmax over `n` scores.
  unfoldable pub gate_scores : (ℕ → Float) → ℕ → (ℕ → Float) → ℕ → ℕ → Float
  gate_scores gate hidden_size hidden n e =
      let raw : ℕ → Float = λ e. dot fl hidden_size (λ d. gate (e * hidden_size + d)) hidden in
      let max_s = for_range (n - 1) 1 (λ e m. larger fl m (raw e)) (raw 0) in
      let weight : ℕ → Float = λ e. exp (sub (raw e) max_s) in
      let sum_e = for_range n 0 (λ e s. add s (weight e)) (zero_float fl) in
      div (weight e) (add sum_e epsilon)

  unfoldable pub score_list : (ℕ → Float) → ℕ → ℕ → List (Float × ℕ)
  score_list scores i zero = []
  score_list scores i (suc n) = (scores i, i) ∷ score_list scores (i + 1) n

  -- One chosen expert: its scaled output is added to `out`.
  unfoldable pub run_expert : Expert → Float → ℕ → ℕ → (ℕ → Float) → (ℕ → Float) → ℕ → Float
  unfolding swiglu_func
  run_expert expert score ffn_dim hidden_size hidden out =
      let gate : ℕ → Float =
        λ i. dot fl hidden_size (λ d. expert.gate_proj (i * hidden_size + d)) hidden in
      let up : ℕ → Float =
        λ i. dot fl hidden_size (λ d. expert.up_proj (i * hidden_size + d)) hidden in
      let act : ℕ → Float = λ i. mul (swiglu_func (gate i)) (up i) in
      write_range 0 hidden_size
        (λ d.
          add (out d) (mul (dot fl ffn_dim (λ i. expert.down_proj (d * ffn_dim + i)) act) score))
        out

  unfoldable pub run_experts :
      (ℕ → Expert) → ℕ → ℕ → (ℕ → Float) → List (Float × ℕ) → (ℕ → Float) → ℕ → Float
  unfolding run_expert
  run_experts experts ffn_dim hidden_size hidden [] out = out
  run_experts experts ffn_dim hidden_size hidden ((score, e) ∷ chosen) out =
      run_experts experts ffn_dim hidden_size hidden chosen
        (run_expert (experts e) score ffn_dim hidden_size hidden out)

  unfoldable pub moe_forward :
      (List (Float × ℕ) → List (Float × ℕ))
      → (ℕ → Float)
      → (ℕ → Float)
      → ℕ
      → (ℕ → Float)
      → (ℕ → Expert)
      → ℕ
      → ℕ
      → ℕ
      → ℕ
      → Float
  unfolding gate_scores score_list run_experts
  moe_forward sort out hidden hidden_size gate experts num_experts ffn_dim top_k =
      let scored =
        sort (score_list (gate_scores gate hidden_size hidden num_experts) 0 num_experts) in
      run_experts experts ffn_dim hidden_size hidden (take top_k scored)
        (write_range 0 hidden_size (λ d. zero_float fl) out)
