-- ===== src/Sampling/Bounds.antt =====
-- Which tokens the sampling of src/model.cpp can return.
use vllm_cpp.Prelude.{
  ℕ, zero, suc, ◌+◌, ◌<◌, ◌≤◌, List, [], ◌∷◌, length, take, All, Option, none, some, Option-cases,
  Bool-cases, ◌≡◌, refl, ap, sym, subst, ◌∙◌, inl, inr, arith, length-modify, length-map,
  some-injective,
}
use mathlib.Core.List.{Perm, Permᴰ}
use mathlib.Core.Logic.{∥∥₁_elim}
use native.Mathlib.Bridge.{le_prop}
use vllm_cpp.Float.{Floats}
use vllm_cpp.Attention.{zero_float}
use vllm_cpp.Sampling.{
  penalize_history, penalized, scale_scores, ranked_from, softmax, top_p_keep, rescore, normalize,
  draw_from, first_token, rank_scores, sample_token,
}

All-perm {ℓ κ} : {A : Type ℓ} (P : A → Type κ) {xs ys : List A} → Permᴰ xs ys → All P ys → All P xs
All-perm P Permᴰ.nil a = tt
All-perm P (Permᴰ.cons e p) a = (subst P (sym e) a.0, All-perm P p a.1)
All-perm P (Permᴰ.swap e e') a = (subst P (sym e) a.1.0, (subst P (sym e') a.0, a.1.1))
All-perm P (Permᴰ.trans p q) a = All-perm P p (All-perm P q a)

length-perm {ℓ} : {A : Type ℓ} {xs ys : List A} → Permᴰ xs ys → length xs ≡ length ys
length-perm Permᴰ.nil = refl
length-perm (Permᴰ.cons e p) = ap suc (length-perm p)
length-perm (Permᴰ.swap e e') = refl
length-perm (Permᴰ.trans p q) = length-perm p ∙ length-perm q

All-take {ℓ κ} : {A : Type ℓ} (P : A → Type κ) (n : ℕ) (xs : List A) → All P xs → All P (take n xs)
All-take P zero xs a = tt
All-take P (suc n) [] a = tt
All-take P (suc n) (x ∷ xs) a = (a.0, All-take P n xs a.1)

module _ (fl : Floats) where
  open fl use {Float, le, add}

  length-penalize_history :
      (penalty : Float) (history : List ℕ) (scores : List Float)
      → length (penalize_history fl penalty history scores) ≡ length scores
  unfolding penalize_history
  length-penalize_history penalty [] scores = refl
  length-penalize_history penalty (id ∷ history) scores =
      length-penalize_history penalty history _ ∙ length-modify scores id _

  length-penalized :
      (penalty : Float) (history : Option (List ℕ)) (scores : List Float)
      → length (penalized fl penalty history scores) ≡ length scores
  unfolding penalized
  length-penalized penalty none scores = refl
  length-penalized penalty (some history) scores = length-penalize_history penalty history scores

  length-scale_scores :
      (temperature : Float) (scores : List Float)
      → length (scale_scores fl temperature scores) ≡ length scores
  unfolding scale_scores
  length-scale_scores temperature scores = elim (Bool-cases (fl.eq temperature (fl.of_ℕ 1))) [
    | inl e ↦ rw (e, scale_scores) refl
    | inr e ↦ rw (e, scale_scores) (length-map scores _)
  ]

  -- The second component is a token below `n`.
  IsToken : ℕ → Float × ℕ → Type 0
  IsToken n r = r.1 < n

  ranked_from-IsToken :
      (n i : ℕ) (scores : List Float)
      → i + length scores ≤ n
      → All (IsToken n) (ranked_from fl i scores)
  unfolding ranked_from IsToken
  ranked_from-IsToken n i [] h = tt
  ranked_from-IsToken n i (s ∷ scores) h =
      (omega arith, ranked_from-IsToken n (i + 1) scores (omega arith))

  length-ranked_from :
      (i : ℕ) (scores : List Float) → length (ranked_from fl i scores) ≡ length scores
  unfolding ranked_from
  length-ranked_from i [] = refl
  length-ranked_from i (s ∷ scores) = ap suc (length-ranked_from (i + 1) scores)

  rescore-IsToken :
      (n : ℕ) (f : Float → Float) (ranked : List (Float × ℕ))
      → All (IsToken n) ranked
      → All (IsToken n) (rescore fl f ranked)
  unfolding IsToken rescore
  rescore-IsToken n f [] a = tt
  rescore-IsToken n f (r ∷ ranked) a = (a.0, rescore-IsToken n f ranked a.1)

  length-rescore :
      (f : Float → Float) (ranked : List (Float × ℕ)) → length (rescore fl f ranked) ≡ length ranked
  unfolding rescore
  length-rescore f [] = refl
  length-rescore f (r ∷ ranked) = ap suc (length-rescore f ranked)

  softmax-IsToken :
      (n : ℕ) (ranked : List (Float × ℕ))
      → All (IsToken n) ranked
      → All (IsToken n) (softmax fl ranked)
  unfolding softmax normalize
  softmax-IsToken n [] a = tt
  softmax-IsToken n (r ∷ ranked) a =
      rescore-IsToken n _ (rescore fl _ (r ∷ ranked)) (rescore-IsToken n _ (r ∷ ranked) a)

  length-softmax : (ranked : List (Float × ℕ)) → length (softmax fl ranked) ≡ length ranked
  unfolding softmax normalize
  length-softmax [] = refl
  length-softmax (r ∷ ranked) =
      length-rescore _ (rescore fl _ (r ∷ ranked)) ∙ length-rescore _ (r ∷ ranked)

  draw_from_lt :
      (n : ℕ) (r cum : Float) (kept : List (Float × ℕ)) (token : ℕ)
      → All (IsToken n) kept
      → draw_from fl r cum kept ≡ some token
      → token < n
  unfolding draw_from IsToken
  draw_from_lt n r cum [] token a e = absurd (cc)
  draw_from_lt n r cum (x ∷ kept) token a e = elim (Bool-cases (le r (add cum x.0))) [
    | inl reached ↦
        let eq = some-injective _ _ (rw (reached, draw_from) at e) in subst (λ t. t < n) eq a.0
    | inr on ↦ draw_from_lt n r (add cum x.0) kept token a.1 (rw (on, draw_from) at e)
  ]

  first_token_lt :
      (n : ℕ) (ranked : List (Float × ℕ))
      → 0 < length ranked
      → All (IsToken n) ranked
      → first_token fl ranked < n
  unfolding first_token IsToken
  first_token_lt n [] h a = elim h [ ]
  first_token_lt n (r ∷ ranked) h a = a.0

  module _ (sort : List (Float × ℕ) → List (Float × ℕ)) where
    chosen_lt :
        (r : Float) (top_p : Float) (n : ℕ) (ranked : List (Float × ℕ))
        → 0 < length ranked
        → All (IsToken n) ranked
        → elim (draw_from fl r
              (zero_float fl)
              (normalize fl (take (top_p_keep fl top_p ranked) ranked)))
            as (λ _. ℕ) [ some token ↦ token | none ↦ first_token fl ranked ]
          < n
    unfolding normalize
    chosen_lt r top_p n ranked h a =
        let kept = normalize fl (take (top_p_keep fl top_p ranked) ranked) in
        elim (Option-cases (draw_from fl r (zero_float fl) kept)) [
          | inl e ↦ rw e (first_token_lt n ranked h a)
          | inr (token, e) ↦ rw e (
              draw_from_lt n r (zero_float fl) kept token
                (rescore-IsToken n _ _ (All-take (IsToken n) _ ranked a)) e)
        ]

    sampled_lt :
        (r : Float) (logits : List Float) (temperature top_p penalty : Float)
        (history : Option (List ℕ))
        → Permᴰ
            (rank_scores fl sort logits temperature penalty history)
            (ranked_from fl 0 (scale_scores fl temperature (penalized fl penalty history logits)))
        → 0 < length logits
        → sample_token fl sort r logits temperature top_p penalty history < length logits
    unfolding sample_token
    sampled_lt r logits temperature top_p penalty history p h =
        let scores : List Float =
          scale_scores fl temperature (penalized fl penalty history logits) in
        let size : length scores ≡ length logits =
          length-scale_scores temperature _ ∙ length-penalized penalty history logits in
        let ranked = rank_scores fl sort logits temperature penalty history in
        let tokens = softmax-IsToken (length logits) ranked (
          All-perm (IsToken (length logits)) p
            (ranked_from-IsToken (length logits) 0 scores (omega arith))) in
        let long : length (softmax fl ranked) ≡ length logits =
          length-softmax ranked ∙ length-perm p ∙ length-ranked_from 0 scores ∙ size in
        chosen_lt r top_p (length logits) (softmax fl ranked) (omega arith) tokens

    -- When the sort permutes what it is given and there is a logit, the token is one of the
    -- vocabulary's.
    pub sample_token_lt :
        (r : Float) (logits : List Float) (temperature top_p penalty : Float)
        (history : Option (List ℕ))
        → ((xs : List (Float × ℕ)) → Perm (sort xs) xs)
        → 0 < length logits
        → sample_token fl sort r logits temperature top_p penalty history < length logits
    unfolding rank_scores
    sample_token_lt r logits temperature top_p penalty history perm h =
        ∥∥₁_elim
          (perm
            (ranked_from fl 0 (scale_scores fl temperature (penalized fl penalty history logits))))
          le_prop (λ p. sampled_lt r logits temperature top_p penalty history p h)
