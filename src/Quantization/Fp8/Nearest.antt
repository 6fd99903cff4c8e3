-- ===== src/Quantization/Fp8/Nearest.antt =====
-- The search of the FP8 encoders finds a closest candidate.
use vllm_cpp.Prelude.{
  ℕ, zero, suc, ◌+◌, ◌-◌, ◌/◌, subst, ◌%◌, ◌^◌, ◌<◌, ◌≤◌, ◌≡◌, ◌==◌, refl, if◌then◌else◌, Bool,
  true, false, ◌&&◌, ◌⊎◌, inl, inr, Bool-cases, arith, ==→eq,
}
use vllm_cpp.Float.{Floats}
use vllm_cpp.Quantization.Fp8.{candidate_err, nearest}

-- The sign bit of a byte.
abbrev pub has_sign : ℕ → ℕ → Bool
has_sign i sign = i / 2 ^ 7 % 2 == sign

module _ (fl : Floats) where
  open fl use {Float, lt, infinity}

  -- IEEE 754: `<` is a strict order (a NaN is below nothing).
  pub record IsStrict : Type 0 where
    pub trans : (a b c : Float) → lt a b ≡ true → lt b c ≡ true → lt a c ≡ true
    pub irrefl : (a : Float) → lt a a ≡ false

  module _ (strict : IsStrict) (decode : ℕ → Float) (sign : ℕ) (v : Float) where
    -- No candidate below `i` beats `err`, and `err` is `best`'s, or still the start value.
    record Leads (i best : ℕ) (err : Float) : Type 0 where
      in_range : best ≤ i - 1
      closest :
          (c : ℕ) → c < i → has_sign c sign ≡ true → lt (candidate_err fl decode v c) err ≡ false
      found :
          ((has_sign best sign ≡ true) × (err ≡ candidate_err fl decode v best))
          ⊎ ((best ≡ 0) × (err ≡ infinity))

    step-Leads :
        (i best : ℕ) (err : Float)
        → Leads i best err
        → (b : Bool) → (has_sign i sign && lt (candidate_err fl decode v i) err) ≡ b
        → Leads (i + 1) (if b then i else best) (if b then candidate_err fl decode v i else err)
    step-Leads i best err w true e = record {
      in_range = omega arith;
      closest = λ c h s. elim (Bool-cases (c == i)) [
        | inl same ↦ let z : c ≡ i = ==→eq _ _ same in rw z (strict.irrefl _)
        | inr other ↦ ground (
          arith,
          w.closest c,
          strict.trans (candidate_err fl decode v c) (candidate_err fl decode v i) err,
        )
      ];
      found = inl (ground arith, refl);
    }
    step-Leads i best err w false e = record {
      in_range = omega (arith, w.in_range);
      closest = λ c h s. elim (Bool-cases (c == i)) [
        | inl same ↦ let z : c ≡ i = ==→eq _ _ same in ground arith
        | inr other ↦ w.closest c (ground arith) s
      ];
      found = w.found;
    }

    nearest-Leads :
        (n i best : ℕ) (err : Float)
        → Leads i best err
        → (err' : Float) × Leads (i + n) (nearest fl decode sign v n i best err) err'
    unfolding nearest
    nearest-Leads zero i best err w =
        (err, let e : i ≡ i + 0 = omega arith in subst (λ (k : ℕ). Leads k best err) e w)
    nearest-Leads (suc n) i best err w =
        let b = has_sign i sign && lt (candidate_err fl decode v i) err in
        let (err', w') = nearest-Leads n (i + 1) _ _ (step-Leads i best err w b refl) in
        (
          err',
          let e : i + 1 + n ≡ i + suc n = omega arith in
              subst (λ (k : ℕ). Leads k (nearest fl decode sign v (suc n) i best err) err') e w',
        )

    -- The search over all bytes ends at a byte whose value is closest to `v` among those of the
    -- wanted sign, or at byte 0 where no value of that sign is nearer than infinity.
    pub nearest_closest :
        let r = nearest fl decode sign v 256 0 0 infinity in
        (r < 256)
        × (((has_sign r sign ≡ true)
              × ((c : ℕ)
                  → c < 256
                  → has_sign c sign ≡ true
                  → lt (candidate_err fl decode v c) (candidate_err fl decode v r) ≡ false))
            ⊎ ((r ≡ 0)
                × ((c : ℕ)
                    → c < 256
                    → has_sign c sign ≡ true
                    → lt (candidate_err fl decode v c) infinity ≡ false)))
    nearest_closest =
        let r = nearest fl decode sign v 256 0 0 infinity in
        let (err, w) = nearest-Leads 256 0 0 infinity (record {
          in_range = omega arith;
          closest = λ c h s. elim h [ ];
          found = inr (refl, refl);
        }) in
        (
          omega (arith, w.in_range),
          elim w.found [
            | inl (s, e) ↦ inl (
              s,
              λ c h t. subst (λ x. lt (candidate_err fl decode v c) x ≡ false) e (w.closest c h t),
            )
            | inr (z, e) ↦ inr (
              z,
              λ c h t. subst (λ x. lt (candidate_err fl decode v c) x ≡ false) e (w.closest c h t),
            )
          ],
        )
