-- ===== src/Attention/Prefix.antt =====
-- Which rows of its caches `compute_attention` reads.
use vllm_cpp.Prelude.{ℕ, ◌+◌, ◌*◌, ◌/◌, ◌<◌, ◌≡◌, refl, ap, ◌∙◌, arith}
use mathlib.Core.Path.{fun_ext}
use vllm_cpp.Prelude.Loops.{for_range, for_range_eq, mul_le_mul_right, write_range, write_range_eq}
use vllm_cpp.Float.{Floats}
use vllm_cpp.Attention.{scale_of, accumulate, zero_float, compute_attention, logits_of, weights_of}
use vllm_cpp.Attention.Heads.{dot_eq, accumulate_eq}
use vllm_cpp.Attention.Agreement.{kv_head_lt}

cache_index_lt : (s n m c w d : ℕ) → s < n → c < m → d < w → (s * m + c) * w + d < n * (m * w)
cache_index_lt s n m c w d hs hc hd =
    let a =
      mul_le_mul_right (s * m + c + 1) (n * m) w
        (omega (arith, mul_le_mul_right (s + 1) n m (omega (arith, hs)))) in
    grind arith

module _ (fl : Floats) (num_heads num_kv_heads head_dim n : ℕ)
    (groups : num_heads ≡ num_heads / num_kv_heads * num_kv_heads) (q : ℕ → fl.Float) where
  open fl use {Float, mul}

  abbrev kv_at : ℕ → ℕ → ℕ → ℕ
  kv_at h s d = (s * num_kv_heads + h / (num_heads / num_kv_heads)) * head_dim + d

  kv_at_lt :
      (h s d : ℕ)
      → h < num_heads
      → s < n
      → d < head_dim
      → kv_at h s d < n * (num_kv_heads * head_dim)
  kv_at_lt h s d hh hs hd =
      cache_index_lt s n num_kv_heads (h / (num_heads / num_kv_heads)) head_dim d hs
        (kv_head_lt fl num_heads num_kv_heads h (num_heads / num_kv_heads) groups hh) hd

  logits_eq :
      (k k' : ℕ → Float)
      → ((i : ℕ) → i < n * (num_kv_heads * head_dim) → k i ≡ k' i)
      → logits_of fl num_heads num_kv_heads head_dim q k n
        ≡ logits_of fl num_heads num_kv_heads head_dim q k' n
  unfolding logits_of
  logits_eq k k' same = for_range_eq num_heads 0 _ _ _ λ h o lo hi. fun_ext λ j.
      write_range_eq (h * n) n _ _ o o j
        (λ s hs.
          ap (λ (x : Float). mul x (scale_of fl head_dim))
            (dot_eq fl head_dim (λ d. q (h * head_dim + d)) (λ d. k (kv_at h s d))
              (λ d. k' (kv_at h s d))
              (λ d hd. same (kv_at h s d) (kv_at_lt h s d (omega arith) hs hd))))
        refl

  -- Two caches with the same first n rows give the same attention over n positions.
  pub compute_attention_eq :
      (out k k' v v' : ℕ → Float)
      → ((i : ℕ) → i < n * (num_kv_heads * head_dim) → k i ≡ k' i)
      → ((i : ℕ) → i < n * (num_kv_heads * head_dim) → v i ≡ v' i)
      → compute_attention fl out q k v n num_heads head_dim num_kv_heads
        ≡ compute_attention fl out q k' v' n num_heads head_dim num_kv_heads
  unfolding compute_attention
  compute_attention_eq out k k' v v' keys values =
      let weights : (ℕ → Float) → ℕ → Float = λ x. weights_of fl num_heads n x in
      let sum : (ℕ → Float) → ℕ → Float = λ x.
        for_range num_heads 0
          (λ h o.
            for_range n 0
              (λ s.
                accumulate fl (h * head_dim) head_dim (weights x (h * n + s))
                  (λ d. v (kv_at h s d)))
              (write_range (h * head_dim) head_dim (λ d. zero_float fl) o))
          out in
      ap sum (logits_eq k k' keys)
      ∙ for_range_eq num_heads 0 _ _ _ λ h o lo hi. for_range_eq n 0 _ _ _ λ s o' lo' hi'.
        accumulate_eq fl (h * head_dim) head_dim _ (λ d. v (kv_at h s d)) (λ d. v' (kv_at h s d)) o'
          (λ d hd. values (kv_at h s d) (kv_at_lt h s d (omega arith) (omega arith) hd))
