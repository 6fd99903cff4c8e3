-- ===== src/Tokenizer/Merges.antt =====
-- The merges of the tokenizer of src/model.cpp: which pair is chosen.
use vllm_cpp.Prelude.{
  ℕ, zero, suc, ◌+◌, ◌<◌, ◌≤◌, ltb, List, [], ◌∷◌, ◌++◌, length, ◌≡◌, refl, ap, ◌∙◌, ◌⊎◌, inl, inr,
  Option, none, some, Option-cases, Bool-cases, arith, some-injective, sym, ltb→lt, subst,
}
use vllm_cpp.Tokenizer.{Best, merge_rank, consider, scan_pairs, best_merge}
use vllm_cpp.Prelude.Texts.{same}

-- The number of the merge that makes the pair at place `k`.
unfoldable pub pair_rank : List (List ℕ × List ℕ) → List (List ℕ) → ℕ → Option ℕ
unfolding merge_rank
pair_rank merges (x ∷ y ∷ tokens) zero = merge_rank merges 0 (x ++ y)
pair_rank merges (x ∷ tokens) (suc k) = pair_rank merges tokens k
pair_rank merges _ _ = none

-- What a scan from place `i` on makes of the best pair so far: it stays, or the first pair of
-- the least rank takes its place.
Stays : List (List ℕ × List ℕ) → List (List ℕ) → Best → Best → Type 0
Stays merges tokens b r =
    (r ≡ b) × ((k m : ℕ) → pair_rank merges tokens k ≡ some m → b.best_rank ≤ m)

Improves : List (List ℕ × List ℕ) → List (List ℕ) → ℕ → Best → Best → Type 0
Improves merges tokens i b r =
    (k : ℕ) × (r.best_pos ≡ some (i + k))
    × (r.best_rank < b.best_rank)
    × (pair_rank merges tokens k ≡ some r.best_rank)
    × ((j m : ℕ)
        → pair_rank merges tokens j ≡ some m
        → (r.best_rank ≤ m) × (j < k → r.best_rank < m))

Scanned : List (List ℕ × List ℕ) → List (List ℕ) → ℕ → Best → Best → Type 0
Scanned merges tokens i b r = Stays merges tokens b r ⊎ Improves merges tokens i b r

module _ (merges : List (List ℕ × List ℕ)) (x y : List ℕ) (tokens : List (List ℕ)) where
  each_pair :
      (P : ℕ → ℕ → Type 0)
      → ((m : ℕ) → merge_rank merges 0 (x ++ y) ≡ some m → P 0 m)
      → ((k m : ℕ) → pair_rank merges (y ∷ tokens) k ≡ some m → P (suc k) m)
      → (k m : ℕ) → pair_rank merges (x ∷ y ∷ tokens) k ≡ some m
      → P k m
  unfolding pair_rank
  each_pair P first others zero m e = first m e
  each_pair P first others (suc k) m e = others k m e

  -- The first pair has no rank below the best one.
  Scanned-same :
      (i : ℕ) (b r : Best)
      → ((m : ℕ) → merge_rank merges 0 (x ++ y) ≡ some m → b.best_rank ≤ m)
      → Scanned merges (y ∷ tokens) (i + 1) b r
      → Scanned merges (x ∷ y ∷ tokens) i b r
  unfolding Scanned Stays Improves pair_rank
  Scanned-same i b r first (inl (stays, rest)) =
      inl (stays, each_pair (λ k m. b.best_rank ≤ m) first rest)
  Scanned-same i b r first (inr (k, pos, lt, at, least)) =
      let e : i + 1 + k ≡ i + suc k = omega arith in
      inr (
        suc k,
        pos ∙ ap some e,
        lt,
        at,
        each_pair (λ j m. (r.best_rank ≤ m) × (j < suc k → r.best_rank < m))
            (λ m e. let le = first m e in (omega arith, λ _. omega arith))
            (λ j m e. let l = least j m e in (l.0, λ h. l.1 (omega arith))),
      )

  -- The first pair becomes the best one.
  Scanned-first :
      (i : ℕ) (b r : Best) (m : ℕ)
      → merge_rank merges 0 (x ++ y) ≡ some m
      → m < b.best_rank
      → Scanned merges (y ∷ tokens) (i + 1) (record { best_rank = m; best_pos = some i }) r
      → Scanned merges (x ∷ y ∷ tokens) i b r
  unfolding Scanned Stays Improves pair_rank
  Scanned-first i b r m e lt (inl (stays, rest)) =
      let e0 : i ≡ i + 0 = omega arith in
      rw stays (
        inr (
          0,
          ap some e0,
          lt,
          e,
          each_pair (λ j n. (m ≤ n) × (j < 0 → m < n))
              (λ n e'. let eq = some-injective _ _ (sym e ∙ e') in (omega arith, λ h. elim h [ ]))
              (λ j n e'. (rest j n e', λ h. elim h [ ])),
        ))
  Scanned-first i b r m e lt (inr (k, pos, lt', at, least)) =
      let e' : i + 1 + k ≡ i + suc k = omega arith in
      inr (
        suc k,
        pos ∙ ap some e',
        omega arith,
        at,
        each_pair (λ j n. (r.best_rank ≤ n) × (j < suc k → r.best_rank < n))
            (λ n e'. let eq = some-injective _ _ (sym e ∙ e') in (omega arith, λ _. omega arith))
            (λ j n e'. let l = least j n e' in (l.0, λ h. l.1 (omega arith))),
      )

pub one_token :
    (merges : List (List ℕ × List ℕ)) (x : List ℕ) (k : ℕ) → pair_rank merges (x ∷ []) k ≡ none
unfolding pair_rank
one_token merges x zero = refl
one_token merges x (suc zero) = refl
one_token merges x (suc (suc k)) = refl

scan_pairs-Scanned :
    (merges : List (List ℕ × List ℕ)) (tokens : List (List ℕ)) (i : ℕ) (b : Best)
    → Scanned merges tokens i b (scan_pairs merges tokens i b)
unfolding scan_pairs consider
scan_pairs-Scanned merges [] i b =
    unfold Scanned Stays pair_rank in inl (refl, λ k m e. absurd (cc))
scan_pairs-Scanned merges (x ∷ []) i b =
    unfold Scanned Stays in inl (refl, λ k m e. let n = one_token merges x k in absurd (cc))
scan_pairs-Scanned merges (x ∷ y ∷ tokens) i b =
    elim (Option-cases (merge_rank merges 0 (x ++ y))) [
      | inl none_eq ↦ rw none_eq (
          Scanned-same merges x y tokens i b _ (λ m e. absurd (cc))
            (scan_pairs-Scanned merges (y ∷ tokens) (i + 1) b))
      | inr (m, e) ↦ rw e (elim (Bool-cases (ltb m b.best_rank)) [
        | inl less ↦ rw less (
            Scanned-first merges x y tokens i b _ m e (ltb→lt _ _ less) (
              scan_pairs-Scanned merges (y ∷ tokens) (i + 1)
                (record { best_rank = m; best_pos = some i })))
        | inr not_less ↦ rw not_less (
            Scanned-same merges x y tokens i b _
              (λ n e'. let eq = some-injective _ _ (sym e ∙ e') in ground arith)
              (scan_pairs-Scanned merges (y ∷ tokens) (i + 1) b))
      ])
    ]

no_best : Best
no_best = record { best_rank = 0x7FFFFFFF; best_pos = none }

module _ (merges : List (List ℕ × List ℕ)) where
  merge_rank_lt :
      (ms : List (List ℕ × List ℕ)) (m r : ℕ) (pair : List ℕ)
      → merge_rank ms m pair ≡ some r
      → r < m + length ms
  unfolding merge_rank
  merge_rank_lt [] m r pair e = absurd (cc)
  merge_rank_lt (merge ∷ ms) m r pair e = elim (Bool-cases (same (merge.0 ++ merge.1) pair)) [
    | inl found ↦ let eq = some-injective _ _ (rw (found, merge_rank) at e) in omega arith
    | inr other ↦
        let lt = merge_rank_lt ms (m + 1) r pair (rw (other, merge_rank) at e) in omega arith
  ]

  pair_rank_lt :
      (tokens : List (List ℕ)) (k r : ℕ) → pair_rank merges tokens k ≡ some r → r < length merges
  unfolding pair_rank
  pair_rank_lt [] k r e = absurd (cc)
  pair_rank_lt (x ∷ []) k r e = let n = one_token merges x k in absurd (cc)
  pair_rank_lt (x ∷ y ∷ tokens) zero r e = omega (arith, merge_rank_lt merges 0 r _ e)
  pair_rank_lt (x ∷ y ∷ tokens) (suc k) r e = pair_rank_lt (y ∷ tokens) k r e

  -- The place `k` has a pair of rank `m`, no pair ranks below it, and none before it ranks as low.
  unfoldable pub IsFirstLeast : List (List ℕ) → ℕ → ℕ → Type 0
  unfolding pair_rank
  IsFirstLeast tokens k m =
      (pair_rank merges tokens k ≡ some m)
      × ((j n : ℕ) → pair_rank merges tokens j ≡ some n → (m ≤ n) × (j < k → m < n))

  pub chosen_pair :
      (tokens : List (List ℕ)) (k : ℕ)
      → best_merge merges tokens ≡ some k
      → (m : ℕ) × IsFirstLeast tokens k m
  unfolding best_merge IsFirstLeast Scanned Stays Improves no_best
  chosen_pair tokens k e = elim (scan_pairs-Scanned merges tokens 0 no_best) [
    | inl (stays, rest) ↦
        let nothing : best_merge merges tokens ≡ none = ap (λ b. b.best_pos) stays in absurd (cc)
    | inr (j, pos, lt, at, least) ↦
        let j_eq : 0 + j ≡ j = omega arith in
        let eq : j ≡ k = some-injective _ _ (ap some (sym j_eq) ∙ sym pos ∙ e) in
        let rank = (scan_pairs merges tokens 0 no_best).best_rank in
        (rank, subst (λ i. IsFirstLeast tokens i rank) eq (at, least))
  ]

  no_pair :
      (tokens : List (List ℕ))
      → length merges < 0x80000000
      → best_merge merges tokens ≡ none
      → (k : ℕ) → pair_rank merges tokens k ≡ none
  unfolding best_merge Scanned Stays Improves no_best
  no_pair tokens few e k = elim (scan_pairs-Scanned merges tokens 0 no_best) [
    | inl (stays, rest) ↦ elim (Option-cases (pair_rank merges tokens k)) [
      | inl nothing ↦ nothing
      | inr (m, at) ↦
          let le = rest k m at in let lt = pair_rank_lt tokens k m at in absurd (omega arith)
    ]
    | inr (j, pos, lt, at, least) ↦ absurd (cc)
  ]

  -- With fewer than 2 ^ 31 merges, best_merge finds the first pair of the least rank, and nothing
  -- where no merge applies to any pair.
  pub best_merge_cases :
      (tokens : List (List ℕ))
      → length merges < 0x80000000
      → ((best_merge merges tokens ≡ none) × ((k : ℕ) → pair_rank merges tokens k ≡ none))
        ⊎ ((k : ℕ) × (best_merge merges tokens ≡ some k) × ((m : ℕ) × IsFirstLeast tokens k m))
  best_merge_cases tokens few = elim (Option-cases (best_merge merges tokens)) [
    | inl e ↦ inl (e, no_pair tokens few e)
    | inr (k, e) ↦ inr (k, e, chosen_pair tokens k e)
  ]
