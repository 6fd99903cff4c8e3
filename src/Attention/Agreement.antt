-- ===== src/Attention/Agreement.antt =====
-- `paged_attention` against `compute_attention` on the rows that `read_kv_prefill` gathers.
use vllm_cpp.Prelude.{
  ℕ, ◌+◌, ◌*◌, ◌/◌, ◌<◌, ◌≡◌, ap, ◌∙◌, sym, List, ℤ, arith, Bool-cases, ltb, ltb→lt, inl, inr,
}
use native.Mathlib.Omega.{div_any}
use native.Mathlib.Nat.{mul_comm}
use vllm_cpp.Prelude.Loops.{for_range, for_range_eq, rows_cell, mul_le_mul_right}
use vllm_cpp.Float.{Floats}
use vllm_cpp.KvCache.Pool.{BlockPool}
use vllm_cpp.Attention.{
  read_kv_prefill, dot, larger, scale_of, accumulate, zero_float, paged_attention,
  compute_attention, logits_of, weights_of,
}
use vllm_cpp.Attention.Gather.{IsCached, k_row, v_row, cache_row-IsCached, read_kv_prefill_lem}
use vllm_cpp.Attention.Heads.{weigh_values_lem}

module _ (fl : Floats) where
  open fl use {Float, add, sub, mul, div, exp, epsilon, lowest}

  -- The weight that position `p` has among logits.
  module _ (n : ℕ) where
    abbrev max_over : (ℕ → Float) → Float
    max_over f = for_range n 0 (λ p m. larger fl m (f p)) lowest

    abbrev total_over : (ℕ → Float) → Float → Float
    total_over f m = for_range n 0 (λ p s. add s (exp (sub (f p) m))) (zero_float fl)

    abbrev share : Float → Float → Float → Float
    share x m total = div (exp (sub x m)) (add total epsilon)

    abbrev softmax : (ℕ → Float) → ℕ → Float
    softmax f p = share (f p) (max_over f) (total_over f (max_over f))

    softmax_eq :
        (f g : ℕ → Float)
        → ((p : ℕ) → p < n → f p ≡ g p)
        → (p : ℕ) → p < n
        → softmax f p ≡ softmax g p
    softmax_eq f g h p hp =
        let m = max_over f in
        let same_max : m ≡ max_over g =
          for_range_eq n 0 _ _ _ (λ p m lo hi. ap (larger fl m) (h p (omega arith))) in
        let same_total : total_over f m ≡ total_over g m =
          for_range_eq n 0 _ _ _
            (λ p s lo hi. ap (λ (x : Float). add s (exp (sub x m))) (h p (omega arith))) in
        ap (λ (x : Float). share x m (total_over f m)) (h p hp)
        ∙ ap (share (g p) m) same_total
        ∙ ap (λ (m : Float). share (g p) m (total_over g m)) same_max

  module _ (num_heads num_kv_heads head_dim n : ℕ) (q k_cache v_cache : ℕ → Float) where
    -- The logit of a head's position in the contiguous cache.
    abbrev logit_at : ℕ → ℕ → Float
    logit_at h s =
        mul
          (dot fl head_dim (λ d. q (h * head_dim + d))
            (λ d. k_cache ((s * num_kv_heads + h / (num_heads / num_kv_heads)) * head_dim + d)))
          (scale_of fl head_dim)

    weights_lem :
        (h s : ℕ)
        → h < num_heads
        → s < n
        → weights_of fl num_heads n
            (logits_of fl num_heads num_kv_heads head_dim q k_cache n)
            (h * n + s)
          ≡ softmax n (logit_at h) s
    unfolding weights_of logits_of
    weights_lem h s hh hs =
        rows_cell num_heads n
          (λ h.
            softmax n (λ s. logits_of fl num_heads num_kv_heads head_dim q k_cache n (h * n + s)))
          _ h s hh hs
        ∙ softmax_eq n _ _ (λ p hp. rows_cell num_heads n logit_at _ h p hh hp) s hs

  -- A key-value head is one of the `num_kv_heads`, and its row lies inside a position's.
  pub kv_head_lt :
      (num_heads num_kv_heads h g : ℕ)
      → num_heads ≡ g * num_kv_heads
      → h < num_heads
      → h / g < num_kv_heads
  kv_head_lt num_heads num_kv_heads h g e hh = elim (Bool-cases (ltb (h / g) num_kv_heads)) [
    | inl lt ↦ ltb→lt _ _ lt
    | inr ge ↦ absurd (
        omega (
          arith,
          div_any h g,
          mul_le_mul_right num_kv_heads (h / g) g (ground arith),
          mul_comm (h / g) g,
          mul_comm num_kv_heads g,
        ))
  ]

  row_index : (s m c hd d : ℕ) → (s * m + c) * hd + d ≡ s * (m * hd) + (c * hd + d)
  row_index s m c hd d = grind arith

  -- A head's columns of a position lie inside the position's row.
  column_lt : (m c w d row : ℕ) → c < m → d < w → row ≡ m * w → c * w + d < row
  column_lt m c w d row hc hd e = omega (arith, mul_le_mul_right (c + 1) m w (omega arith))

  module _ (table : List ℤ) (pool : BlockPool) (layer : ℤ) (n : ℕ)
      (cached : (p : ℕ) → p < n → IsCached fl table pool layer p)
      (num_heads num_kv_heads head_dim : ℕ) (rows : pool.kv_dim ≡ num_kv_heads * head_dim)
      (groups : num_heads ≡ num_heads / num_kv_heads * num_kv_heads) where
    -- What `paged_attention` finds for a head is what the gathered buffers hold for it.
    module _ (out : (ℕ → Float) × (ℕ → Float)) (h : ℕ) (hh : h < num_heads) (p : ℕ)
        (hp : p < n) where
      abbrev kv_h : ℕ
      kv_h = h / (num_heads / num_kv_heads)

      index_lem :
          (d : ℕ)
          → (p * num_kv_heads + kv_h) * head_dim + d ≡ p * pool.kv_dim + (kv_h * head_dim + d)
      index_lem d = rw (rows) (row_index p num_kv_heads kv_h head_dim d)

      gathered :
          (d : ℕ)
          → d < head_dim
          → let r = read_kv_prefill fl table n layer pool out in
            let i = (p * num_kv_heads + kv_h) * head_dim + d in
            (k_row fl (cached p hp) (kv_h * head_dim) d ≡ r.0 i)
            × (v_row fl (cached p hp) (kv_h * head_dim) d ≡ r.1 i)
      gathered d hd =
          let inside =
            column_lt num_kv_heads kv_h head_dim d pool.kv_dim
              (kv_head_lt num_heads num_kv_heads h (num_heads / num_kv_heads) groups hh) hd rows in
          let same =
            read_kv_prefill_lem fl table pool layer n cached out p (kv_h * head_dim + d) hp
              inside in
          rw (index_lem d) (
            ap (cached p hp).k_view (omega arith) ∙ sym (same.0),
            ap (cached p hp).v_view (omega arith) ∙ sym (same.1),
          )

    -- When every position has storage and the key-value heads divide the query heads, attention over
    -- the scattered blocks gives, float operation by float operation, what contiguous attention gives
    -- on the buffers that `read_kv_prefill` fills.
    pub paged_attention-read_kv_prefill :
        (q out k_out v_out : ℕ → Float)
        → let r = read_kv_prefill fl table n layer pool (k_out, v_out) in
          paged_attention fl q table n pool num_heads num_kv_heads head_dim layer out
          ≡ compute_attention fl out q r.0 r.1 n num_heads head_dim num_kv_heads
    unfolding paged_attention compute_attention
    paged_attention-read_kv_prefill q out k_out v_out =
        let r = read_kv_prefill fl table n layer pool (k_out, v_out) in
        for_range_eq num_heads 0 _ _ out λ h o lo hi.
          let hh : (h < num_heads) = omega arith in
          let off = h / (num_heads / num_kv_heads) * head_dim in
          let same : (p : ℕ) (hp : p < n) (d : ℕ) → d < head_dim → _ =
            gathered (k_out, v_out) h hh in
          weigh_values_lem fl _ _ _ n head_dim
            (λ p d. r.0 ((p * num_kv_heads + h / (num_heads / num_kv_heads)) * head_dim + d))
            (λ p d. r.1 ((p * num_kv_heads + h / (num_heads / num_kv_heads)) * head_dim + d))
            (λ p hp. (
              k_row fl (cached p hp) off,
              (cache_row-IsCached fl (cached p hp) off).0,
              λ d hd. (same p hp d hd).0,
            ))
            (λ p hp. (
              v_row fl (cached p hp) off,
              (cache_row-IsCached fl (cached p hp) off).1,
              λ d hd. (same p hp d hd).1,
            ))
            (h * head_dim) o
          ∙ for_range_eq n 0 _ _ _ λ p o' lo' hi'.
            ap
              (λ (w : Float).
                accumulate fl (h * head_dim) head_dim w
                  (λ d. r.1 ((p * num_kv_heads + h / (num_heads / num_kv_heads)) * head_dim + d))
                  o')
              (sym (weights_lem num_heads num_kv_heads head_dim n q r.0 r.1 h p hh (omega arith)))
