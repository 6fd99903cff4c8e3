-- ===== src/Attention/Heads.antt =====
-- One head of `paged_attention`, when its positions all have storage, as sums over plain functions.
use vllm_cpp.Prelude.{
  ℕ, ◌+◌, ◌-◌, ◌<◌, ◌≡◌, refl, ap, inl, inr, Option, some, arith, Bool-cases, leb, ltb, ◌&&◌,
}
use mathlib.Core.Path.{fun_ext}
use vllm_cpp.Prelude.Loops.{for_range, for_range_eq, write_range}
use vllm_cpp.Float.{Floats}
use vllm_cpp.Attention.{
  dot, larger, scale_of, accumulate, zero_float, max_logit, sum_exp, weigh_values,
}

module _ (fl : Floats) where
  open fl use {Float, add, sub, mul, div, exp, epsilon, lowest}

  pub dot_eq :
      (n : ℕ) (q k k' : ℕ → Float) → ((d : ℕ) → d < n → k d ≡ k' d) → dot fl n q k ≡ dot fl n q k'
  unfolding dot
  dot_eq n q k k' h =
      for_range_eq n 0 _ _ _
        (λ d s lo hi. ap (λ (x : Float). add s (mul (q d) x)) (h d (omega arith)))

  pub accumulate_eq :
      (off n : ℕ) (w : Float) (v v' o : ℕ → Float)
      → ((d : ℕ) → d < n → v d ≡ v' d)
      → accumulate fl off n w v o ≡ accumulate fl off n w v' o
  unfolding accumulate write_range
  accumulate_eq off n w v v' o h = fun_ext λ i. elim (Bool-cases (leb off i && ltb i (off + n))) [
    | inl e ↦
        rw e (ap (λ (x : Float). add (o (off + (i - off))) (mul w x)) (h (i - off) (ground arith)))
    | inr e ↦ rw e refl
  ]

  -- One head: what its positions hold, and the same values in two contiguous functions.
  module _ (keys values : ℕ → Option (ℕ → Float)) (q : ℕ → Float) (n head_dim : ℕ)
      (k v : ℕ → ℕ → Float)
      (keys_at : (p : ℕ)
        → p < n
        → (r : ℕ → Float) × (keys p ≡ some r) × ((d : ℕ) → d < head_dim → r d ≡ k p d))
      (values_at : (p : ℕ)
        → p < n
        → (r : ℕ → Float) × (values p ≡ some r) × ((d : ℕ) → d < head_dim → r d ≡ v p d)) where
    abbrev logit : ℕ → Float
    logit p = mul (dot fl head_dim q (k p)) (scale_of fl head_dim)

    abbrev max_of : Float
    max_of = for_range n 0 (λ p m. larger fl m (logit p)) lowest

    abbrev sum_of : Float
    sum_of = add (for_range n 0 (λ p s. add s (exp (sub (logit p) max_of))) (zero_float fl)) epsilon

    max_logit_lem : max_logit fl keys values q n head_dim ≡ max_of
    unfolding max_logit
    max_logit_lem = for_range_eq n 0 _ _ _ λ p m lo hi.
        let (r, at, same) = keys_at p (omega arith) in
        rw at (
          ap (λ (x : Float). larger fl m (mul x (scale_of fl head_dim)))
            (dot_eq head_dim q r (k p) same))

    sum_exp_lem : sum_exp fl keys values q n head_dim ≡ sum_of
    unfolding sum_exp
    sum_exp_lem =
        ap (λ (x : Float). add x epsilon)
          (for_range_eq n 0 _ _ _ λ p s lo hi.
            let (r, at, same) = keys_at p (omega arith) in
            rw (at, max_logit_lem)
              (ap (λ (x : Float). add s (exp (sub (mul x (scale_of fl head_dim)) max_of)))
                (dot_eq head_dim q r (k p) same)))

    pub weigh_values_lem :
        (off : ℕ) (o : ℕ → Float)
        → weigh_values fl keys values q n head_dim off o
          ≡ for_range n 0
              (λ p. accumulate fl off head_dim (div (exp (sub (logit p) max_of)) sum_of) (v p))
              (write_range off head_dim (λ d. zero_float fl) o)
    unfolding weigh_values
    weigh_values_lem off o = for_range_eq n 0 _ _ _ λ p o' lo hi.
        let (r, at, same) = keys_at p (omega arith) in
        let (r', at', same') = values_at p (omega arith) in
        rw at (
          rw (at', max_logit_lem, sum_exp_lem, dot_eq head_dim q r (k p) same)
            (accumulate_eq off head_dim _ r' (v p) o' same'))
