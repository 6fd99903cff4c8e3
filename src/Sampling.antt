-- ===== src/Sampling.antt =====
-- Sampling and the generation loop of src/model.cpp. `std::sort` by descending score, the random
-- number in [0, 1), and the model's logits are parameters.
pub mod Bounds
pub mod TopP
pub mod Generation
use vllm_cpp.Prelude.{
  ℕ, zero, suc, ◌+◌, ◌-◌, ◌==◌, Bool, true, false, if◌then◌else◌, List, [], ◌∷◌, ◌++◌, map, length,
  modify, take, drop, Option, none, some,
}
use vllm_cpp.Float.{Floats}
use vllm_cpp.Attention.{zero_float}

module _ (fl : Floats) where
  open fl use {Float, of_ℕ, add, sub, mul, div, exp, lt, le, eq}

  unfoldable pub penalize : Float → Float → Float
  penalize penalty s =
      if lt (zero_float fl) s
      then div s penalty
      else if lt s (zero_float fl)
      then mul s penalty
      else s

  -- A token that the vocabulary does not have is skipped.
  unfoldable pub penalize_history : Float → List ℕ → List Float → List Float
  unfolding penalize
  penalize_history penalty [] scores = scores
  penalize_history penalty (id ∷ history) scores =
      penalize_history penalty history (modify scores id (penalize penalty))

  -- A null pointer for the history changes nothing.
  unfoldable pub penalized : Float → Option (List ℕ) → List Float → List Float
  unfolding penalize_history
  penalized penalty none scores = scores
  penalized penalty (some history) scores = penalize_history penalty history scores

  unfoldable pub scale_scores : Float → List Float → List Float
  scale_scores temperature scores =
      if eq temperature (of_ℕ 1) then scores else map (λ s. div s temperature) scores

  unfoldable pub ranked_from : ℕ → List Float → List (Float × ℕ)
  ranked_from i [] = []
  ranked_from i (s ∷ scores) = (s, i) ∷ ranked_from (i + 1) scores

  unfoldable pub sum_first : Float → List (Float × ℕ) → Float
  sum_first sum [] = sum
  sum_first sum (r ∷ ranked) = sum_first (add sum r.0) ranked

  unfoldable pub rescore : (Float → Float) → List (Float × ℕ) → List (Float × ℕ)
  rescore f [] = []
  rescore f (r ∷ ranked) = (f r.0, r.1) ∷ rescore f ranked

  unfoldable pub normalize : List (Float × ℕ) → List (Float × ℕ)
  unfolding sum_first rescore
  normalize ranked = rescore (λ p. div p (sum_first (zero_float fl) ranked)) ranked

  -- Over scores whose first one is the largest.
  unfoldable pub softmax : List (Float × ℕ) → List (Float × ℕ)
  unfolding normalize rescore
  softmax [] = []
  softmax (best ∷ ranked) = normalize (rescore (λ s. exp (sub s best.0)) (best ∷ ranked))

  -- How many are kept: as many as it takes for the sum to reach top_p.
  unfoldable pub keep_from : Float → Float → ℕ → List (Float × ℕ) → ℕ
  keep_from top_p cum i [] = i
  keep_from top_p cum i (r ∷ ranked) =
      let cum' = add cum r.0 in if le top_p cum' then i + 1 else keep_from top_p cum' (i + 1) ranked

  unfoldable pub top_p_keep : Float → List (Float × ℕ) → ℕ
  unfolding keep_from
  top_p_keep top_p ranked = keep_from top_p (zero_float fl) 0 ranked

  -- The first token at which the sum reaches the random number.
  unfoldable pub draw_from : Float → Float → List (Float × ℕ) → Option ℕ
  draw_from r cum [] = none
  draw_from r cum (x ∷ kept) =
      let cum' = add cum x.0 in if le r cum' then some x.1 else draw_from r cum' kept

  -- An empty vector of logits, on which the source indexes out of range, gives 0.
  unfoldable pub first_token : List (Float × ℕ) → ℕ
  first_token [] = 0
  first_token (best ∷ ranked) = best.1

  module _ (sort : List (Float × ℕ) → List (Float × ℕ)) where
    unfoldable pub rank_scores : List Float → Float → Float → Option (List ℕ) → List (Float × ℕ)
    unfolding penalized scale_scores ranked_from
    rank_scores logits temperature repeat_penalty history =
        sort (ranked_from 0 (scale_scores temperature (penalized repeat_penalty history logits)))

    unfoldable pub sample_token : Float → List Float → Float → Float → Float → Option (List ℕ) → ℕ
    unfolding rank_scores softmax top_p_keep normalize draw_from first_token
    sample_token r logits temperature top_p repeat_penalty history =
        let ranked = softmax (rank_scores logits temperature repeat_penalty history) in
        elim (draw_from r (zero_float fl) (normalize (take (top_p_keep top_p ranked) ranked))) [
          | some token ↦ token
          | none ↦ first_token ranked
        ]

    -- The output, and the tokens that on_token is called with, in order. `forward` is forward_cpu,
    -- `draw` the random number of each round, `penalty` the literal 1.1f.
    module _ (forward : List ℕ → List Float) (draw : ℕ → Float) (penalty : Float) (eos : ℕ) where
      -- The token of round `i`: the penalty sees the last 64 tokens of the output.
      unfoldable pub next_token : ℕ → Float → Float → List ℕ → ℕ
      unfolding sample_token
      next_token i temperature top_p output =
          sample_token (draw i) (forward output) temperature top_p penalty
            (some (drop (length output - 64) output))

      unfoldable pub generate_loop : ℕ → ℕ → Float → Float → List ℕ → List ℕ → List ℕ × List ℕ
      unfolding next_token
      generate_loop zero i temperature top_p output seen = (output, seen)
      generate_loop (suc rounds) i temperature top_p output seen =
          let next = next_token i temperature top_p output in
          elim (next == eos) [
            | true ↦ (output, seen)
            | false ↦
                generate_loop rounds (i + 1) temperature top_p (output ++ (next ∷ []))
                  (seen ++ (next ∷ []))
          ]

      unfoldable pub generate_cpu : List ℕ → ℕ → Float → Float → List ℕ × List ℕ
      unfolding generate_loop
      generate_cpu prompt_tokens max_new_tokens temperature top_p =
          generate_loop max_new_tokens 0 temperature top_p prompt_tokens []
