-- ===== src/Tokenizer/Merging.antt =====
-- The merge loop of the tokenizer of src/model.cpp: what it keeps, and when it stops.
use vllm_cpp.Prelude.{
  ℕ, zero, suc, ◌+◌, ◌≤◌, ltb, List, [], ◌∷◌, ◌++◌, length, All, ◌≡◌, refl, ap, ◌∙◌, inl, inr, none,
  some, Option-cases, Bool-cases, append_assoc, arith,
}
use mathlib.Core.List.{flatten}
use vllm_cpp.Tokenizer.{merge_rank, scan_pairs, best_merge, merge_at, apply_merges}
use vllm_cpp.Tokenizer.Merges.{pair_rank, IsFirstLeast, one_token, chosen_pair}

module _ (merges : List (List ℕ × List ℕ)) where
  flatten-merge_at : (k : ℕ) (tokens : List (List ℕ)) → flatten (merge_at k tokens) ≡ flatten tokens
  unfolding flatten merge_at
  flatten-merge_at zero [] = refl
  flatten-merge_at zero (x ∷ []) = refl
  flatten-merge_at zero (x ∷ y ∷ tokens) = append_assoc x y (flatten tokens)
  flatten-merge_at (suc k) [] = refl
  flatten-merge_at (suc k) (x ∷ tokens) = ap (λ r. x ++ r) (flatten-merge_at k tokens)

  length-merge_at :
      (k m : ℕ) (tokens : List (List ℕ))
      → pair_rank merges tokens k ≡ some m
      → suc (length (merge_at k tokens)) ≡ length tokens
  unfolding pair_rank merge_at
  length-merge_at zero m [] h = absurd (cc)
  length-merge_at zero m (x ∷ []) h = absurd (cc)
  length-merge_at zero m (x ∷ y ∷ tokens) h = refl
  length-merge_at (suc k) m [] h = absurd (cc)
  length-merge_at (suc k) m (x ∷ []) h = let n = one_token merges x (suc k) in absurd (cc)
  length-merge_at (suc k) m (x ∷ y ∷ tokens) h = ap suc (length-merge_at k m (y ∷ tokens) h)

  module _ (P : List ℕ → Type 0)
      (closed : (x y : List ℕ) (m : ℕ)
        → merge_rank merges 0 (x ++ y) ≡ some m
        → P x
        → P y
        → P (x ++ y)) where
    pub All-merge_at :
        (k m : ℕ) (tokens : List (List ℕ))
        → pair_rank merges tokens k ≡ some m
        → All P tokens
        → All P (merge_at k tokens)
    unfolding pair_rank merge_at
    All-merge_at zero m [] h a = tt
    All-merge_at zero m (x ∷ []) h a = a
    All-merge_at zero m (x ∷ y ∷ tokens) h a = (closed x y m h a.0 a.1.0, a.1.1)
    All-merge_at (suc k) m [] h a = tt
    All-merge_at (suc k) m (x ∷ []) h a = let n = one_token merges x (suc k) in absurd (cc)
    All-merge_at (suc k) m (x ∷ y ∷ tokens) h a = (a.0, All-merge_at k m (y ∷ tokens) h a.1)

  -- What every merge of a chosen pair keeps holds of the result.
  pub apply_merges_inv :
      (P : List (List ℕ) → Type 0)
      → ((k m : ℕ) (tokens : List (List ℕ))
          → pair_rank merges tokens k ≡ some m
          → P tokens
          → P (merge_at k tokens))
      → (n : ℕ) (tokens : List (List ℕ)) → P tokens
      → P (apply_merges n merges tokens)
  unfolding apply_merges IsFirstLeast
  apply_merges_inv P keep zero tokens h = h
  apply_merges_inv P keep (suc n) tokens h = elim (Bool-cases (ltb 1 (length tokens))) [
    | inl more ↦ elim (Option-cases (best_merge merges tokens)) [
      | inl e ↦ rw (more, e, apply_merges) h
      | inr (k, e) ↦
          rw (more, e, apply_merges)
            (apply_merges_inv P keep n (merge_at k tokens)
              (keep k _ tokens (chosen_pair merges tokens k e).1.0 h))
    ]
    | inr few ↦ rw (few, apply_merges) h
  ]

  pub flatten-apply_merges :
      (n : ℕ) (tokens : List (List ℕ)) → flatten (apply_merges n merges tokens) ≡ flatten tokens
  flatten-apply_merges n tokens =
      apply_merges_inv (λ ts. flatten ts ≡ flatten tokens) (λ k m ts h e. flatten-merge_at k ts ∙ e)
        n tokens refl

  few_tokens : (tokens : List (List ℕ)) → length tokens ≤ 1 → best_merge merges tokens ≡ none
  unfolding best_merge scan_pairs
  few_tokens [] h = refl
  few_tokens (x ∷ []) h = refl
  few_tokens (x ∷ y ∷ tokens) h = absurd (omega arith)

  -- Rounds up to the number of tokens are enough: no merge is left to do.
  pub merges_end :
      (n : ℕ) (tokens : List (List ℕ))
      → length tokens ≤ n + 1
      → best_merge merges (apply_merges n merges tokens) ≡ none
  unfolding apply_merges IsFirstLeast
  merges_end zero tokens h = few_tokens tokens (omega arith)
  merges_end (suc n) tokens h = elim (Bool-cases (ltb 1 (length tokens))) [
    | inl more ↦ elim (Option-cases (best_merge merges tokens)) [
      | inl e ↦ rw (more, e, apply_merges) e
      | inr (k, e) ↦
          let shorter = length-merge_at k _ tokens (chosen_pair merges tokens k e).1.0 in
          rw (more, e, apply_merges) (merges_end n (merge_at k tokens) (omega arith))
    ]
    | inr few ↦ rw (few, apply_merges) (few_tokens tokens (ground arith))
  ]
