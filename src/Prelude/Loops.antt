-- ===== src/Prelude/Loops.antt =====
-- Counted loops, and buffers as functions of the index.
use Prim.Native.Nat.{ℕ, zero, suc, ◌+◌, ◌-◌, ◌*◌, ◌≤◌, ◌<◌}
use mathlib.Core.Path.{◌≡◌, refl, sym, ◌∙◌, ap}
use mathlib.Core.Bool.{true, false, ◌&&◌}
use mathlib.Core.Logic.{◌⊎◌, inl, inr}
use native.Mathlib.Omega.{arith}
use vllm_cpp.Prelude.Tests.{leb, ltb, ltb→lt, Bool-cases, if◌then◌else◌}

-- for (k = i; k < i + n; k++) s = body k s
unfoldable pub for_range {ℓ} : {S : Type ℓ} → ℕ → ℕ → (ℕ → S → S) → S → S
for_range zero k body state = state
for_range (suc rounds) k body state = for_range rounds (k + 1) body (body k state)

-- Two bodies that agree on the range make the same loop.
pub for_range_eq {ℓ} :
    {S : Type ℓ} (n i : ℕ) (f g : ℕ → S → S) (s : S)
    → ((k : ℕ) (s : S) → i ≤ k → k < i + n → f k s ≡ g k s)
    → for_range n i f s ≡ for_range n i g s
unfolding for_range
for_range_eq zero i f g s h = refl
for_range_eq (suc n) i f g s h =
    ap (for_range n (i + 1) f) (h i s (omega arith) (omega arith))
    ∙ for_range_eq n (i + 1) f g (g i s) (λ k s' lo hi. h k s' (omega arith) (omega arith))

-- The invariant rule.
pub for_range_inv {ℓ κ} :
    {S : Type ℓ} (P : ℕ → S → Type κ) (n i j : ℕ) (body : ℕ → S → S) (s : S)
    → ((k : ℕ) (s : S) → i ≤ k → k < i + n → P k s → P (k + 1) (body k s))
    → i + n ≡ j
    → P i s
    → P j (for_range n i body s)
unfolding for_range
for_range_inv P zero i j body s keep e h = let e' : i ≡ j = omega arith in rw (← e') h
for_range_inv P (suc n) i j body s keep e h =
    for_range_inv P n (i + 1) j body (body i s)
      (λ k s' lo hi. keep k s' (omega arith) (omega arith)) (omega arith)
      (keep i s (omega arith) (omega arith) h)

for_range-suc {ℓ} :
    {S : Type ℓ} (n i : ℕ) (body : ℕ → S → S) (s : S)
    → for_range (suc n) i body s ≡ body (i + n) (for_range n i body s)
unfolding for_range
for_range-suc zero i body s = let e : i + zero ≡ i = omega arith in rw e refl
for_range-suc (suc n) i body s =
    let e : i + 1 + n ≡ i + suc n = omega arith in rw e at (for_range-suc n (i + 1) body (body i s))

-- The last round of a loop.
pub for_range_snoc {ℓ} :
    {S : Type ℓ} (n : ℕ) (body : ℕ → S → S) (s : S)
    → for_range (n + 1) 0 body s ≡ body n (for_range n 0 body s)
for_range_snoc n body s =
    let e : n + 1 ≡ suc n = omega arith in
    let e' : 0 + n ≡ n = omega arith in rw e (rw e' at (for_range-suc n 0 body s))

pub last_or : (b k : ℕ) → b < k + 1 → (b ≡ k) ⊎ (b < k)
last_or b k h = grind arith

pub mul_le_mul_right : (a b c : ℕ) → a ≤ b → a * c ≤ b * c
mul_le_mul_right a b c h = grind arith

module _ {ℓ} {A : Type ℓ} where
  -- The cells off … off + n - 1 set by `f`, the others kept.
  unfoldable pub write_range : ℕ → ℕ → (ℕ → A) → (ℕ → A) → ℕ → A
  write_range off n f buf i = if leb off i && ltb i (off + n) then f (i - off) else buf i

  pub write_range_in :
      (off n : ℕ) (f buf : ℕ → A) (k : ℕ) → k < n → write_range off n f buf (off + k) ≡ f k
  unfolding write_range
  write_range_in off n f buf k h =
      let e : (leb off (off + k) && ltb (off + k) (off + n)) ≡ true = ground arith in
      let d : off + k - off ≡ k = omega arith in rw e (ap f d)

  pub write_range_out :
      (off n : ℕ) (f buf : ℕ → A) (i : ℕ)
      → (i < off) ⊎ (off + n ≤ i)
      → write_range off n f buf i ≡ buf i
  unfolding write_range
  write_range_out off n f buf i h =
      let e : (leb off i && ltb i (off + n)) ≡ false = ground arith in rw e refl

  -- A cell of a row at the front.
  pub write_range_at : (n : ℕ) (f buf : ℕ → A) (k : ℕ) → k < n → write_range 0 n f buf k ≡ f k
  write_range_at n f buf k h =
      let z : zero + k ≡ k = omega arith in rw z at (write_range_in 0 n f buf k h)

  -- A row written at the front of a buffer, cell by cell.
  pub write_row_cell :
      (n : ℕ) (f g buf : ℕ → A) (j : ℕ)
      → ((j : ℕ) → j < n → f j ≡ g j)
      → write_range 0 n f buf j ≡ (if ltb j n then g j else buf j)
  write_row_cell n f g buf j h = elim (Bool-cases (ltb j n)) [
    | inl e ↦ rw e (write_range_at n f buf j (ltb→lt j n e) ∙ h j (ltb→lt j n e))
    | inr e ↦ rw e (write_range_out 0 n f buf j (ground arith))
  ]

  -- Rows that agree are written alike.
  pub write_row_eq :
      (n : ℕ) (f g buf : ℕ → A) (j : ℕ)
      → ((j : ℕ) → j < n → f j ≡ g j)
      → write_range 0 n f buf j ≡ write_range 0 n g buf j
  write_row_eq n f g buf j h =
      write_row_cell n f g buf j h ∙ sym (write_row_cell n g g buf j (λ m hm. refl))

  -- A cell after two writes of rows that agree, over buffers that agree at the cell.
  pub write_range_eq :
      (off n : ℕ) (f g u v : ℕ → A) (j : ℕ)
      → ((i : ℕ) → i < n → f i ≡ g i)
      → u j ≡ v j
      → write_range off n f u j ≡ write_range off n g v j
  unfolding write_range
  write_range_eq off n f g u v j h e = elim (Bool-cases (leb off j && ltb j (off + n))) [
    | inl c ↦ rw c (h (j - off) (ground arith))
    | inr c ↦ rw c e
  ]

  -- One row per step, each at its own place: cell `s` of row `a`.
  pub rows_cell :
      (n m : ℕ) (f : ℕ → ℕ → A) (buf : ℕ → A) (a s : ℕ)
      → a < n
      → s < m
      → for_range n 0 (λ h. write_range (h * m) m (f h)) buf (a * m + s) ≡ f a s
  rows_cell n m f buf a s ha hs =
      for_range_inv (λ k o. (a : ℕ) → a < k → o (a * m + s) ≡ f a s) n 0 n _ buf
        (λ k o lo hi rec b hb. next_row n m f k o s hs rec b hb) (omega arith) (λ b hb. elim hb [ ])
        a ha
    where
      next_row :
          (n m : ℕ) (f : ℕ → ℕ → A) (k : ℕ) (o : ℕ → A) (s : ℕ)
          → s < m
          → ((a : ℕ) → a < k → o (a * m + s) ≡ f a s)
          → (b : ℕ) → b < k + 1
          → write_range (k * m) m (f k) o (b * m + s) ≡ f b s
      next_row n m f k o s hs rec b hb = elim (last_or b k hb) [
        | inl e ↦ rw e (write_range_in (k * m) m (f k) o s hs)
        | inr h ↦
            write_range_out (k * m) m (f k) o (b * m + s)
              (inl (omega (arith, mul_le_mul_right (b + 1) k m (omega arith))))
            ∙ rec b h
      ]
