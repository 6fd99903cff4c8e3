-- ===== src/Engine/Rope.antt =====
-- `rope_single`: every pair of every head is turned once, from the values it had before the call.
use vllm_cpp.Prelude.{
  ℕ, ◌+◌, ◌-◌, ◌*◌, ◌/◌, ◌<◌, ◌≤◌, ◌≡◌, ◌∙◌, refl, ◌⊎◌, inl, inr, arith, leb, if◌then◌else◌,
}
use vllm_cpp.Prelude.Loops.{
  for_range, for_range_inv, write_range, write_range_in, write_range_out, mul_le_mul_right, last_or,
}
use vllm_cpp.Float.{Floats}
use vllm_cpp.Engine.{rotate_pair, rope_single}

module _ (fl : Floats) where
  open fl use {Float, add, sub, mul, cos, sin, of_ℕ}

  -- The pair at `p` of `o` is the pair of `x` turned by `freq`.
  abbrev pub IsTurned : (x o : ℕ → Float) → ℕ → Float → Type 0
  IsTurned x o p freq =
      (o p ≡ sub (mul (x p) (cos freq)) (mul (x (p + 1)) (sin freq)))
      × (o (p + 1) ≡ add (mul (x p) (sin freq)) (mul (x (p + 1)) (cos freq)))

  abbrev IsSame : (x o : ℕ → Float) → ℕ → Type 0
  IsSame x o p = (o p ≡ x p) × (o (p + 1) ≡ x (p + 1))

  rotate_pair_self :
      (p : ℕ) (freq : Float) (x : ℕ → Float) → IsTurned x (rotate_pair fl p freq x) p freq
  unfolding rotate_pair
  rotate_pair_self p freq x =
      let z : p + 0 ≡ p = omega arith in
      let z' : p + 1 + 0 ≡ p + 1 = omega arith in
      let turned : ℕ → Float =
        write_range p 1 (λ z. sub (mul (x p) (cos freq)) (mul (x (p + 1)) (sin freq))) x in
      (
        write_range_out (p + 1) 1 _ _ p (inl (omega arith))
            ∙ rw z at (
                write_range_in p 1 (λ z. sub (mul (x p) (cos freq)) (mul (x (p + 1)) (sin freq))) x
                  0 (omega arith)),
        rw z' at (
            write_range_in (p + 1) 1 (λ z. add (mul (x p) (sin freq)) (mul (x (p + 1)) (cos freq)))
              turned 0 (omega arith)),
      )

  rotate_pair_other :
      (p : ℕ) (freq : Float) (x : ℕ → Float) (i : ℕ)
      → (i < p) ⊎ (p + 2 ≤ i)
      → rotate_pair fl p freq x i ≡ x i
  unfolding rotate_pair
  rotate_pair_other p freq x i (inl h) =
      write_range_out (p + 1) 1 _ _ i (inl (omega arith)) ∙ write_range_out p 1 _ x i (inl h)
  rotate_pair_other p freq x i (inr h) =
      write_range_out (p + 1) 1 _ _ i (inr (omega arith))
      ∙ write_range_out p 1 _ x i (inr (omega arith))

  IsTurned-from :
      (x o o' : ℕ → Float) (p : ℕ) (freq : Float)
      → IsSame x o p
      → IsTurned o o' p freq
      → IsTurned x o' p freq
  IsTurned-from x o o' p freq s t = (rw (← s.0, ← s.1) t.0, rw (← s.0, ← s.1) t.1)

  -- The pairs of one head.
  module _ (base half : ℕ) (freq : ℕ → Float) where
    abbrev turn : ℕ → (ℕ → Float) → ℕ → Float
    turn i = rotate_pair fl (base + 2 * i) (freq i)

    turn_other :
        (k : ℕ) (o : ℕ → Float) (j : ℕ) → (j < k) ⊎ (k < j) → IsSame o (turn k o) (base + 2 * j)
    turn_other k o j (inl h) = (
      rotate_pair_other _ _ o _ (inl (omega arith)),
      rotate_pair_other _ _ o _ (inl (omega arith)),
    )
    turn_other k o j (inr h) = (
      rotate_pair_other _ _ o _ (inr (omega arith)),
      rotate_pair_other _ _ o _ (inr (omega arith)),
    )

    head_in :
        (x : ℕ → Float) (j : ℕ)
        → j < half
        → IsTurned x (for_range half 0 turn x) (base + 2 * j) (freq j)
    head_in x j hj =
        (for_range_inv
            (λ k o.
              (j < k → IsTurned x o (base + 2 * j) (freq j)) × (k ≤ j → IsSame x o (base + 2 * j)))
            half 0 half turn x (λ k o lo hi rec. (now k o rec, later k o rec)) (omega arith)
            ((λ h. elim h [ ]), (λ h. (refl, refl)))).0
          hj
      where
        now :
            (k : ℕ) (o : ℕ → Float)
            → (j < k → IsTurned x o (base + 2 * j) (freq j)) × (k ≤ j → IsSame x o (base + 2 * j))
            → j < k + 1
            → IsTurned x (turn k o) (base + 2 * j) (freq j)
        now k o rec h = elim (last_or j k h) [
          | inl e ↦
              let own =
                IsTurned-from x o (turn k o) (base + 2 * k) (freq k) (rw e at (rec.1 (omega arith)))
                  (rotate_pair_self (base + 2 * k) (freq k) o) in
              rw e own
          | inr lt ↦
              let same = turn_other k o j (inl lt) in (same.0 ∙ (rec.0 lt).0, same.1 ∙ (rec.0 lt).1)
        ]

        later :
            (k : ℕ) (o : ℕ → Float)
            → (j < k → IsTurned x o (base + 2 * j) (freq j)) × (k ≤ j → IsSame x o (base + 2 * j))
            → k + 1 ≤ j
            → IsSame x (turn k o) (base + 2 * j)
        later k o rec h =
            let same = turn_other k o j (inr (omega arith)) in
            let before = rec.1 (omega arith) in (same.0 ∙ before.0, same.1 ∙ before.1)

    head_out :
        (x : ℕ → Float) (i : ℕ)
        → (i < base) ⊎ (base + 2 * half ≤ i)
        → for_range half 0 turn x i ≡ x i
    head_out x i h =
        for_range_inv (λ k o. o i ≡ x i) half 0 half turn x
          (λ k o lo hi rec.
            rotate_pair_other _ _ o i
              (elim h [ inl l ↦ inl (omega arith) | inr g ↦ inr (omega arith) ])
            ∙ rec)
          (omega arith) refl

  -- The angle of pair `j`.
  abbrev pub angle : (ℕ → Float) → ℕ → ℕ → ℕ → Float
  angle inv_freq inv_freq_size position j =
      mul (inv_freq (if leb j (inv_freq_size - 1) then j else inv_freq_size - 1)) (of_ℕ position)

  -- Pair `j` of head `h` comes out turned by its angle, from the values it had before the call.
  pub rope_single_lem :
      (x : ℕ → Float) (dim head_dim position : ℕ) (inv_freq : ℕ → Float) (inv_freq_size h j : ℕ)
      → h < dim / head_dim
      → j < head_dim / 2
      → IsTurned x
          (rope_single fl x dim head_dim position inv_freq inv_freq_size)
          (h * head_dim + 2 * j)
          (angle inv_freq inv_freq_size position j)
  unfolding rope_single
  rope_single_lem x dim head_dim position inv_freq inv_freq_size h j hh hj =
      (for_range_inv
          (λ k o.
            (h < k → IsTurned x o p (freq j)) × (k ≤ h → (i : ℕ) → h * head_dim ≤ i → o i ≡ x i))
          (dim / head_dim) 0 (dim / head_dim) _ x (λ k o lo hi rec. (now k o rec, later k o rec))
          (omega arith) ((λ h. elim h [ ]), (λ h i hi. refl))).0
        hh
    where
      p : ℕ
      p = h * head_dim + 2 * j

      freq : ℕ → Float
      freq = angle inv_freq inv_freq_size position

      now :
          (k : ℕ) (o : ℕ → Float)
          → (h < k → IsTurned x o p (freq j)) × (k ≤ h → (i : ℕ) → h * head_dim ≤ i → o i ≡ x i)
          → h < k + 1
          → IsTurned x
              (for_range (head_dim / 2) 0 (turn (k * head_dim) (head_dim / 2) freq) o)
              p
              (freq j)
      now k o rec lt = elim (last_or h k lt) [
        | inl e ↦
            let kept = rec.1 (omega arith) in
            rw (← e) (
              IsTurned-from x o
                (for_range (head_dim / 2) 0 (turn (h * head_dim) (head_dim / 2) freq) o) p (freq j)
                (kept p (omega arith), kept (p + 1) (omega arith))
                (head_in (h * head_dim) (head_dim / 2) freq o j hj))
        | inr before ↦
            let left = mul_le_mul_right (h + 1) k head_dim (omega arith) in
            let out = head_out (k * head_dim) (head_dim / 2) freq o in
            let done = rec.0 before in
            (out p (inl (omega arith)) ∙ done.0, out (p + 1) (inl (omega arith)) ∙ done.1)
      ]

      later :
          (k : ℕ) (o : ℕ → Float)
          → (h < k → IsTurned x o p (freq j)) × (k ≤ h → (i : ℕ) → h * head_dim ≤ i → o i ≡ x i)
          → k + 1 ≤ h
          → (i : ℕ) → h * head_dim ≤ i
          → for_range (head_dim / 2) 0 (turn (k * head_dim) (head_dim / 2) freq) o i ≡ x i
      later k o rec lt i hi =
          let left = mul_le_mul_right (k + 1) h head_dim lt in
          head_out (k * head_dim) (head_dim / 2) freq o i (inr (omega arith))
          ∙ rec.1 (omega arith) i hi
