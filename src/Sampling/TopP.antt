-- ===== src/Sampling/TopP.antt =====
-- The top-p cut of the sampling of src/model.cpp.
use vllm_cpp.Prelude.{
  ℕ, zero, suc, ◌+◌, ◌<◌, ◌≤◌, true, false, List, [], ◌∷◌, length, Bool-cases, ◌≡◌, refl, ◌⊎◌, inl,
  inr, arith,
}
use vllm_cpp.Float.{Floats}
use vllm_cpp.Attention.{zero_float}
use vllm_cpp.Sampling.{top_p_keep, keep_from}

module _ (fl : Floats) where
  open fl use {Float, le, add}

  -- The sum of the first `k` probabilities.
  unfoldable pub sum_of_first : Float → ℕ → List (Float × ℕ) → Float
  sum_of_first cum zero ranked = cum
  sum_of_first cum (suc k) [] = cum
  sum_of_first cum (suc k) (r ∷ ranked) = sum_of_first (add cum r.0) k ranked

  -- `keep` is the least number of first probabilities, one at least, whose sum reaches top_p, or
  -- all of them where no sum does.
  unfoldable pub IsNucleus : Float → Float → List (Float × ℕ) → ℕ → Type 0
  unfolding sum_of_first
  IsNucleus top_p cum ranked keep =
      (keep ≤ length ranked)
      × (0 < length ranked → 0 < keep)
      × ((keep ≡ length ranked) ⊎ (le top_p (sum_of_first cum keep ranked) ≡ true))
      × ((k : ℕ) → 0 < k → k < keep → le top_p (sum_of_first cum k ranked) ≡ false)

  -- One probability more: no smaller number reaches top_p.
  least_suc :
      (top_p cum : Float) (r : Float × ℕ) (ranked : List (Float × ℕ)) (keep : ℕ)
      → le top_p (add cum r.0) ≡ false
      → ((k : ℕ) → 0 < k → k < keep → le top_p (sum_of_first (add cum r.0) k ranked) ≡ false)
      → (k : ℕ) → 0 < k
      → k < suc keep
      → le top_p (sum_of_first cum k (r ∷ ranked)) ≡ false
  unfolding sum_of_first
  least_suc top_p cum r ranked keep short least zero h l = absurd (omega arith)
  least_suc top_p cum r ranked keep short least (suc zero) h l = short
  least_suc top_p cum r ranked keep short least (suc (suc k)) h l =
      least (suc k) (omega arith) (omega arith)

  keep_from_lem :
      (top_p cum : Float) (i : ℕ) (ranked : List (Float × ℕ))
      → (keep : ℕ) × (keep_from fl top_p cum i ranked ≡ i + keep) × IsNucleus top_p cum ranked keep
  unfolding keep_from IsNucleus
  keep_from_lem top_p cum i [] =
      (0, omega arith, (omega arith, λ h. h, inl refl, λ k h l. absurd (omega arith)))
  keep_from_lem top_p cum i (r ∷ ranked) = elim (Bool-cases (le top_p (add cum r.0))) [
    | inl reached ↦ (
      1,
      rw (reached, keep_from) refl,
      (
        omega arith,
        λ h. omega arith,
        inr (unfold sum_of_first in reached),
        λ k h l. absurd (omega arith),
      ),
    )
    | inr short ↦
        let (keep, e, (le_all, some_kept, ends, least)) =
          keep_from_lem top_p (add cum r.0) (i + 1) ranked in
        (
          suc keep,
          rw (short, keep_from) (omega arith),
          (
            omega arith,
            λ h. omega arith,
            elim ends [
              | inl all ↦ inl (omega arith)
              | inr reached ↦ inr (unfold sum_of_first in reached)
            ],
            least_suc top_p cum r ranked keep short least,
          ),
        )
  ]

  -- top_p_keep is the least number of first probabilities, one at least, whose sum reaches top_p,
  -- or the number of all of them where no sum does.
  pub top_p_keep_lem :
      (top_p : Float) (ranked : List (Float × ℕ))
      → IsNucleus top_p (zero_float fl) ranked (top_p_keep fl top_p ranked)
  unfolding top_p_keep
  top_p_keep_lem top_p ranked =
      let (keep, e, h) = keep_from_lem top_p (zero_float fl) 0 ranked in
      let e' : keep_from fl top_p (zero_float fl) 0 ranked ≡ keep = omega (arith, e) in rw e' h
