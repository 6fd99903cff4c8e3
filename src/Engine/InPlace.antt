-- ===== src/Engine/InPlace.antt =====
-- The down projection of src/paged_engine.cpp, whose output buffer is its input.
use vllm_cpp.Prelude.{
  ℕ, ◌+◌, ◌*◌, ◌<◌, ◌≤◌, ltb, ltb→lt, if◌then◌else◌, ◌≡◌, refl, ap, sym, ◌∙◌, inl, inr, subst,
  Bool-cases, arith,
}
use vllm_cpp.Prelude.Loops.{
  for_range_inv, for_range_eq, write_range, write_range_in, write_range_out, last_or,
}
use vllm_cpp.Float.{Floats}
use vllm_cpp.Attention.{dot, zero_float}
use vllm_cpp.Engine.Layer.{matmul_in_place}

module _ (fl : Floats) where
  open fl use {Float, add, mul}

  dot_eq : (n : ℕ) (x y z : ℕ → Float) → ((p : ℕ) → p < n → y p ≡ z p) → dot fl n x y ≡ dot fl n x z
  unfolding dot
  dot_eq n x y z h =
      for_range_eq n 0 _ _ (zero_float fl)
        (λ d s lo hi. ap (λ v. add s (mul (x d) v)) (h d (omega arith)))

  -- The input that row `i` reads, when the rows before it have been written to `c`.
  unfoldable pub seen_by : ℕ → (ℕ → Float) → (ℕ → Float) → ℕ → Float
  seen_by i c b p = if ltb p i then c p else b p

  module _ (a : ℕ → Float) (k : ℕ) (b : ℕ → Float) where
    record Written (n : ℕ) (c : ℕ → Float) : Type 0 where
      rest : (i : ℕ) → n ≤ i → c i ≡ b i
      rows : (i : ℕ) → i < n → c i ≡ dot fl k (λ p. a (i * k + p)) (seen_by i c b)

    -- Cell `n` written last: the rows up to it see the same input.
    module _ (n : ℕ) (c : ℕ → Float) where
      next : ℕ → Float
      next = write_range n 1 (λ z. dot fl k (λ p. a (n * k + p)) c) c

      seen_next : (i p : ℕ) → i ≤ n → seen_by i c b p ≡ seen_by i next b p
      unfolding next seen_by
      seen_next i p h = elim (Bool-cases (ltb p i)) [
        | inl below ↦ rw below (
            sym (
              write_range_out n 1 (λ z. dot fl k (λ p. a (n * k + p)) c) c p
                (inl (omega (arith, ltb→lt p i below)))))
        | inr above ↦ rw above refl
      ]

      seen_all : Written n c → (p : ℕ) → c p ≡ seen_by n c b p
      unfolding seen_by
      seen_all w p = elim (Bool-cases (ltb p n)) [
        | inl below ↦ rw below refl
        | inr above ↦ rw above (w.rest p (ground arith))
      ]

      next_at : next n ≡ dot fl k (λ p. a (n * k + p)) c
      unfolding next
      next_at =
          let e : n + 0 ≡ n = omega arith in
          rw e at (write_range_in n 1 (λ z. dot fl k (λ p. a (n * k + p)) c) c 0 (omega arith))

      next_row :
          (i : ℕ)
          → Written n c
          → i < n + 1
          → next i ≡ dot fl k (λ p. a (i * k + p)) (seen_by i next b)
      unfolding next
      next_row i w h = elim (last_or i n h) [
        | inl e ↦
            subst (λ m. next m ≡ dot fl k (λ p. a (m * k + p)) (seen_by m next b)) (sym e)
              (next_at
                ∙ dot_eq k _ c (seen_by n next b)
                    (λ p hp. seen_all w p ∙ seen_next n p (omega arith)))
        | inr before ↦
            write_range_out n 1 _ c i (inl before)
            ∙ w.rows i before
            ∙ dot_eq k _ (seen_by i c b) (seen_by i next b) (λ p hp. seen_next i p (omega arith))
      ]

      Written-next : Written n c → Written (n + 1) next
      unfolding next
      Written-next w = record {
        rest = λ i h. write_range_out n 1 _ c i (inr h) ∙ w.rest i (omega arith);
        rows = λ i h. next_row i w h;
      }

    -- Row `i` of the product reads what the rows before it have written over the input.
    pub matmul_in_place-row :
        (m i : ℕ)
        → i < m
        → let c = matmul_in_place fl a m k b in c i ≡ dot fl k (λ p. a (i * k + p)) (seen_by i c b)
    unfolding matmul_in_place next
    matmul_in_place-row m i h =
        let w : Written m (matmul_in_place fl a m k b) =
          for_range_inv Written m 0 m _ b (λ n c lo hi w. Written-next n c w) (omega arith)
            (record { rest = λ j g. refl; rows = λ j g. elim g [ ] }) in
        w.rows i h
