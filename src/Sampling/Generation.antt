-- ===== src/Sampling/Generation.antt =====
-- What the generation loop of src/model.cpp returns.
use vllm_cpp.Prelude.{
  ℕ, zero, suc, ◌+◌, ◌≤◌, ◌==◌, ==→eq, List, [], ◌∷◌, ◌++◌, length, Bool-cases, ◌≡◌, ◌≢◌, refl, ap,
  ◌∙◌, ◌⊎◌, inl, inr, append-nil, append_assoc, arith,
}
use vllm_cpp.Float.{Floats}
use vllm_cpp.Sampling.{next_token, generate_loop, generate_cpu}

module _ (fl : Floats) where
  open fl use {Float}

  module _ (sort : List (Float × ℕ) → List (Float × ℕ)) (forward : List ℕ → List Float)
      (draw : ℕ → Float) (penalty : Float) (eos : ℕ) (temperature top_p : Float) where
    -- The tokens of the rounds from `i` on, each sampled after those before it, none of them eos.
    unfoldable pub IsRun : ℕ → List ℕ → List ℕ → Type 0
    IsRun i output [] = Unit
    IsRun i output (t ∷ new) =
        (t ≡ next_token fl sort forward draw penalty eos i temperature top_p output)
        × (t ≢ eos)
        × IsRun (i + 1) (output ++ (t ∷ [])) new

    -- The run stops at its bound, or where the next token is eos.
    unfoldable pub Ends : ℕ → ℕ → List ℕ → List ℕ → Type 0
    Ends rounds i output new =
        (length new ≤ rounds)
        × ((length new ≡ rounds)
            ⊎ (next_token fl sort forward draw penalty eos (i + length new) temperature top_p
                  (output ++ new)
                ≡ eos))

    generate_loop_lem :
        (rounds i : ℕ) (output seen : List ℕ)
        → (new : List ℕ) × (generate_loop fl sort forward draw penalty eos rounds i temperature
              top_p output seen
            ≡ (output ++ new, seen ++ new))
          × IsRun i output new
          × Ends rounds i output new
    unfolding IsRun Ends generate_loop
    generate_loop_lem zero i output seen = (
      [],
      unfold generate_loop in rw (append-nil output, append-nil seen) refl,
      tt,
      (omega arith, inl refl),
    )
    generate_loop_lem (suc rounds) i output seen =
        let t = next_token fl sort forward draw penalty eos i temperature top_p output in
        elim (Bool-cases (t == eos)) [
          | inl stop ↦
              let now : i + 0 ≡ i = omega arith in
              (
                [],
                rw (stop, generate_loop) (rw (append-nil output, append-nil seen) refl),
                tt,
                (omega arith, inr (rw (append-nil output, now) (==→eq _ _ stop))),
              )
          | inr on ↦
              let (new, e, run, (le, ends)) =
                generate_loop_lem rounds (i + 1) (output ++ (t ∷ [])) (seen ++ (t ∷ [])) in
              let later : i + 1 + length new ≡ i + suc (length new) = omega arith in
              (
                t ∷ new,
                rw (on, generate_loop)
                    (e
                      ∙ rw (append_assoc output (t ∷ []) new, append_assoc seen (t ∷ []) new) refl),
                (refl, λ same. ground arith, run),
                (
                  omega arith,
                  elim ends [
                    | inl all ↦ inl (ap suc all)
                    | inr stop ↦ inr (rw (← later, ← append_assoc output (t ∷ []) new) stop)
                  ],
                ),
              )
        ]

    -- The output is the prompt and what on_token saw, a run of sampled tokens without eos, which
    -- has max_new_tokens tokens or stops before eos.
    pub generate_cpu_lem :
        (prompt_tokens : List ℕ) (max_new_tokens : ℕ)
        → (new : List ℕ) × (generate_cpu fl sort forward draw penalty eos prompt_tokens
              max_new_tokens temperature top_p
            ≡ (prompt_tokens ++ new, new))
          × IsRun 0 prompt_tokens new
          × Ends max_new_tokens 0 prompt_tokens new
    unfolding generate_cpu
    generate_cpu_lem prompt_tokens max_new_tokens =
        generate_loop_lem max_new_tokens 0 prompt_tokens []
