-- ===== src/Tests/Sampling.antt =====
-- Runs of the sampling and of the generation loop of src/model.cpp on two-valued floats.
use vllm_cpp.Prelude.{ℕ, ◌<◌, ◌==◌, List, [], ◌∷◌, length, some, ◌≡◌, refl, arith, if◌then◌else◌}
use mathlib.Core.List.Permᴰ
use mathlib.Core.List.{Permᴰ}
use vllm_cpp.Sampling.{top_p_keep, sample_token, generate_cpu}
use vllm_cpp.Sampling.Bounds.{sample_token_lt}
use vllm_cpp.Sampling.TopP.{IsNucleus, top_p_keep_lem}
use vllm_cpp.Sampling.Generation.{IsRun, Ends, generate_cpu_lem}
use vllm_cpp.Tests.Samples.{Sample, low, high, samples}

-- The pairs with a high score first.
put_first : Sample × ℕ → List (Sample × ℕ) → List (Sample × ℕ)
put_first (high, i) ranked = (high, i) ∷ ranked
put_first (low, i) [] = (low, i) ∷ []
put_first (low, i) (r ∷ ranked) = r ∷ put_first (low, i) ranked

unfoldable pub sort_samples : List (Sample × ℕ) → List (Sample × ℕ)
unfolding put_first
sort_samples [] = []
sort_samples (r ∷ ranked) = put_first r (sort_samples ranked)

put_first-perm :
    (r : Sample × ℕ) (ranked : List (Sample × ℕ)) → Permᴰ (put_first r ranked) (r ∷ ranked)
unfolding put_first
put_first-perm (high, i) ranked = Permᴰ.refl _
put_first-perm (low, i) [] = Permᴰ.refl _
put_first-perm (low, i) (r ∷ ranked) =
    Permᴰ.trans (Permᴰ.cons refl (put_first-perm (low, i) ranked)) (Permᴰ.swap refl refl)

sort_samples-perm : (ranked : List (Sample × ℕ)) → Permᴰ (sort_samples ranked) ranked
unfolding sort_samples
sort_samples-perm [] = Permᴰ.nil
sort_samples-perm (r ∷ ranked) =
    Permᴰ.trans (put_first-perm r (sort_samples ranked))
      (Permᴰ.cons refl (sort_samples-perm ranked))

abbrev logits : List Sample
logits = low ∷ high ∷ low ∷ []

sample_token_lt_example :
    sample_token samples sort_samples low logits high high high (some (1 ∷ [])) < 3
sample_token_lt_example =
    sample_token_lt samples sort_samples low logits high high high (some (1 ∷ []))
      (λ xs. ∣ sort_samples-perm xs ∣₁) (omega arith)

sampled : sample_token samples sort_samples low logits high high high (some (1 ∷ [])) ≡ 1
unfolding sample_token sort_samples
sampled = refl

abbrev ranked : List (Sample × ℕ)
ranked = (low, 0) ∷ (high, 1) ∷ (high, 2) ∷ []

top_p_keep_lem_example : IsNucleus samples high low ranked (top_p_keep samples high ranked)
top_p_keep_lem_example = top_p_keep_lem samples high ranked

-- A model that repeats token 1 and then says token 2.
abbrev forward : List ℕ → List Sample
forward tokens = if length tokens == 3 then low ∷ low ∷ high ∷ [] else logits

abbrev draw : ℕ → Sample
draw i = low

generate_cpu_lem_example :
    (new : List ℕ) × (generate_cpu samples sort_samples forward draw high 2 (1 ∷ []) 5 high high
      ≡ (1 ∷ new, new))
    × IsRun samples sort_samples forward draw high 2 high high 0 (1 ∷ []) new
    × Ends samples sort_samples forward draw high 2 high high 5 0 (1 ∷ []) new
generate_cpu_lem_example =
    generate_cpu_lem samples sort_samples forward draw high 2 high high (1 ∷ []) 5

generated :
    generate_cpu samples sort_samples forward draw high 2 (1 ∷ []) 5 high high
    ≡ (1 ∷ 1 ∷ 1 ∷ [], 1 ∷ 1 ∷ [])
unfolding generate_cpu sort_samples
generated = refl
