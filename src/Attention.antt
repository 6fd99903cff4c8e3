-- ===== src/Attention.antt =====
-- src/paged_attention.cpp, and `compute_attention` of src/paged_engine.cpp: attention over a cache
-- that a block table scatters, and over a contiguous one. A buffer is a function of the index; the
-- query does not overlap the output.
pub mod Gather
pub mod Heads
pub mod Agreement
pub mod Prefix
use vllm_cpp.Prelude.{
  ℕ, zero, suc, ◌+◌, ◌-◌, ◌*◌, ◌/◌, ◌%◌, ltb, if◌then◌else◌, Bool, List, [], ◌∷◌, ℤ, pos, negsuc,
  Option, none, some, get_elem?,
}
use vllm_cpp.Prelude.Loops.{for_range, write_range}
use vllm_cpp.Config.{block_size}
use vllm_cpp.Float.{Floats}
use vllm_cpp.KvCache.Pool.{BlockPool}
use vllm_cpp.KvCache.Storage.{get_k, get_v, write_kv}

module _ (fl : Floats) where
  open fl use {Float, of_ℕ, epsilon, lowest, add, sub, mul, div, exp, sqrt, lt}

  abbrev pub zero_float : Float
  zero_float = of_ℕ 0

  -- 1.0f / std::sqrt((float)head_dim)
  unfoldable pub scale_of : ℕ → Float
  scale_of head_dim = div (of_ℕ 1) (sqrt (of_ℕ head_dim))

  unfoldable pub dot : ℕ → (ℕ → Float) → (ℕ → Float) → Float
  dot head_dim q k = for_range head_dim 0 (λ d s. add s (mul (q d) (k d))) zero_float

  -- if (logit > max_logit) max_logit = logit, which is also std::max(max_logit, logit)
  unfoldable pub larger : Float → Float → Float
  larger max_logit logit = if lt max_logit logit then logit else max_logit

  -- o_h[d] += weight * v_h[d] for every d of the head
  unfoldable pub accumulate : ℕ → ℕ → Float → (ℕ → Float) → (ℕ → Float) → ℕ → Float
  accumulate off head_dim weight v out =
      write_range off head_dim (λ d. add (out (off + d)) (mul weight (v d))) out

  -- The part of a position's row in the cache that begins at `off`: nothing when the table has no
  -- block for the position or the pool no storage for the block.
  unfoldable pub cache_row :
      (ℤ → ℤ → BlockPool → Option (ℕ → Float)) → List ℤ → BlockPool → ℤ → ℕ → ℕ → Option (ℕ → Float)
  cache_row get table pool layer off p = elim (get_elem? table (p / block_size)) [
    | none ↦ none
    | some id ↦ elim (get id layer pool) [
      | none ↦ none
      | some row ↦ some (λ d. row (p % block_size * pool.kv_dim + off + d))
    ]
  ]

  -- One head of `paged_attention`, over the keys and values of its positions.
  module _ (keys values : ℕ → Option (ℕ → Float)) (q : ℕ → Float) (seq_len head_dim : ℕ) where
    unfoldable pub max_logit : Float
    max_logit =
        for_range seq_len 0
          (λ p m. elim (keys p) [
            | none ↦ m
            | some k ↦ larger m (mul (dot head_dim q k) (scale_of head_dim))
          ])
          lowest

    unfoldable pub sum_exp : Float
    unfolding max_logit
    sum_exp =
        add
          (for_range seq_len 0
            (λ p s. elim (keys p) [
              | none ↦ s
              | some k ↦ add s (exp (sub (mul (dot head_dim q k) (scale_of head_dim)) max_logit))
            ])
            zero_float)
          epsilon

    unfoldable pub weigh_values : ℕ → (ℕ → Float) → ℕ → Float
    unfolding max_logit sum_exp
    weigh_values off out =
        for_range seq_len 0
          (λ p o. elim (keys p) [
            | none ↦ o
            | some k ↦ elim (values p) [
              | none ↦ o
              | some v ↦
                  accumulate off head_dim
                    (div (exp (sub (mul (dot head_dim q k) (scale_of head_dim)) max_logit)) sum_exp)
                    v o
            ]
          ])
          (write_range off head_dim (λ d. zero_float) out)

  unfoldable pub paged_attention :
      (ℕ → Float) → List ℤ → ℕ → BlockPool → ℕ → ℕ → ℕ → ℤ → (ℕ → Float) → ℕ → Float
  unfolding weigh_values
  paged_attention q table seq_len pool num_heads num_kv_heads head_dim layer out =
      for_range num_heads 0
        (λ h o.
          let kv_h = h / (num_heads / num_kv_heads) in
          weigh_values (cache_row (get_k fl) table pool layer (kv_h * head_dim))
            (cache_row (get_v fl) table pool layer (kv_h * head_dim)) (λ d. q (h * head_dim + d))
            seq_len head_dim (h * head_dim) o)
        out

  -- One sequence of a batch: its query, its block table unless that pointer is null, its length and
  -- its output.
  pub record BatchEntry : Type 0 where
    pub query : ℕ → Float
    pub table : Option (List ℤ)
    pub seq_len : ℕ
    pub output : ℕ → Float

  -- The outputs of the batch.
  unfoldable pub paged_attention_batch :
      List BatchEntry → BlockPool → ℕ → ℕ → ℕ → ℤ → List (ℕ → Float)
  paged_attention_batch [] pool num_heads num_kv_heads head_dim layer = []
  paged_attention_batch (e ∷ es) pool num_heads num_kv_heads head_dim layer =
      elim e.table [
        | none ↦ e.output
        | some t ↦
            paged_attention e.query t e.seq_len pool num_heads num_kv_heads head_dim layer e.output
      ]
      ∷ paged_attention_batch es pool num_heads num_kv_heads head_dim layer

  -- The token before position `seq_len`. For an empty sequence the position in the block is -1.
  unfoldable pub write_kv_token : List ℤ → ℕ → ℤ → (ℕ → Float) → (ℕ → Float) → BlockPool → BlockPool
  write_kv_token table seq_len layer k v pool =
      elim (get_elem? table ((seq_len - 1) / block_size)) [
        | none ↦ pool
        | some id ↦ write_kv fl id layer (last_position seq_len) k v pool.kv_dim pool
      ]
    where
      last_position : ℕ → ℤ
      last_position zero = negsuc 0
      last_position (suc n) = pos (n % block_size)

  unfoldable pub write_kv_prefill :
      List ℤ → ℕ → ℤ → (ℕ → Float) → (ℕ → Float) → BlockPool → BlockPool
  write_kv_prefill table seq_len layer k v pool =
      for_range seq_len 0
        (λ p s. elim (get_elem? table (p / block_size)) [
          | none ↦ s
          | some id ↦
              write_kv fl id layer (pos (p % block_size)) (λ d. k (p * pool.kv_dim + d))
                (λ d. v (p * pool.kv_dim + d)) pool.kv_dim s
        ])
        pool

  -- One position of `read_kv_prefill`, on the two output buffers.
  unfoldable pub read_step :
      List ℤ → ℤ → BlockPool → ℕ → (ℕ → Float) × (ℕ → Float) → (ℕ → Float) × (ℕ → Float)
  read_step table layer pool p o = elim (cache_row (get_k fl) table pool layer 0 p) [
    | none ↦ o
    | some k ↦ elim (cache_row (get_v fl) table pool layer 0 p) [
      | none ↦ o
      | some v ↦ (
        write_range (p * pool.kv_dim) pool.kv_dim k o.0,
        write_range (p * pool.kv_dim) pool.kv_dim v o.1,
      )
    ]
  ]

  -- The two output buffers after the call.
  unfoldable pub read_kv_prefill :
      List ℤ → ℕ → ℤ → BlockPool → (ℕ → Float) × (ℕ → Float) → (ℕ → Float) × (ℕ → Float)
  unfolding read_step
  read_kv_prefill table seq_len layer pool out =
      for_range seq_len 0 (read_step table layer pool) out

  -- `compute_attention`: the logits and weights of all heads in two buffers of rows, then the sums.
  -- The buffers come from `new float[]`; what a cell holds before it is written is zero here, and no
  -- cell is read before.
  unfoldable pub logits_of : ℕ → ℕ → ℕ → (ℕ → Float) → (ℕ → Float) → ℕ → ℕ → Float
  logits_of num_heads num_kv_heads head_dim q k_cache seq_len =
      for_range num_heads 0
        (λ h. write_range (h * seq_len) seq_len λ s.
          let kv_h = h / (num_heads / num_kv_heads) in
          mul
            (dot head_dim (λ d. q (h * head_dim + d))
              (λ d. k_cache ((s * num_kv_heads + kv_h) * head_dim + d)))
            (scale_of head_dim))
        (λ i. zero_float)

  unfoldable pub weights_of : ℕ → ℕ → (ℕ → Float) → ℕ → Float
  weights_of num_heads seq_len logits =
      for_range num_heads 0
        (λ h.
          let max_l = for_range seq_len 0 (λ s m. larger m (logits (h * seq_len + s))) lowest in
          let weight : ℕ → Float = λ s. exp (sub (logits (h * seq_len + s)) max_l) in
          let sum = for_range seq_len 0 (λ s t. add t (weight s)) zero_float in
          write_range (h * seq_len) seq_len (λ s. div (weight s) (add sum epsilon)))
        (λ i. zero_float)

  unfoldable pub compute_attention :
      (ℕ → Float) → (ℕ → Float) → (ℕ → Float) → (ℕ → Float) → ℕ → ℕ → ℕ → ℕ → ℕ → Float
  unfolding logits_of weights_of
  compute_attention out q k_cache v_cache seq_len num_heads head_dim num_kv_heads =
      let logits = logits_of num_heads num_kv_heads head_dim q k_cache seq_len in
      let weights = weights_of num_heads seq_len logits in
      for_range num_heads 0
        (λ h o.
          let kv_h = h / (num_heads / num_kv_heads) in
          for_range seq_len 0
            (λ s.
              accumulate (h * head_dim) head_dim (weights (h * seq_len + s))
                (λ d. v_cache ((s * num_kv_heads + kv_h) * head_dim + d)))
            (write_range (h * head_dim) head_dim (λ d. zero_float) o))
        out
