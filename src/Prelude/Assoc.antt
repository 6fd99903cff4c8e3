-- ===== src/Prelude/Assoc.antt =====
-- A `std::map` with number keys as an association list: a key's first entry counts.
use Prim.Native.Nat.{ℕ, ◌+◌, ◌<◌, ◌≤◌}
use mathlib.Core.Path.{◌≡◌, refl, subst}
use mathlib.Core.Bool.{false}
use mathlib.Core.Option.{Option, none, some, some-injective}
use mathlib.Core.List.{List, [], ◌∷◌}
use native.Mathlib.Omega.{arith}
use vllm_cpp.Prelude.Tests.{◌==◌, if◌then◌else◌, Bool-cases}
use mathlib.Core.Logic.{inl, inr}

module _ {ℓ} {V : Type ℓ} where
  unfoldable pub find? : ℕ → List (ℕ × V) → Option V
  find? k [] = none
  find? k ((j, v) ∷ m) = if j == k then some v else find? k m

  unfoldable pub insert : ℕ → V → List (ℕ × V) → List (ℕ × V)
  insert k v [] = (k, v) ∷ []
  insert k v ((j, w) ∷ m) = if j == k then (k, v) ∷ m else (j, w) ∷ insert k v m

  unfoldable pub erase : ℕ → List (ℕ × V) → List (ℕ × V)
  erase k [] = []
  erase k ((j, w) ∷ m) = if j == k then m else (j, w) ∷ erase k m

  pub find?-insert :
      (k j : ℕ) (v : V) (m : List (ℕ × V))
      → find? j (insert k v m) ≡ (if k == j then some v else find? j m)
  unfolding find? insert
  find?-insert k j v [] = refl
  find?-insert k j v ((i, w) ∷ m) = ground (arith, find?-insert k j v m)

  pub find?-erase_ne :
      (k j : ℕ) (m : List (ℕ × V)) → (k == j) ≡ false → find? j (erase k m) ≡ find? j m
  unfolding find? erase
  find?-erase_ne k j [] h = refl
  find?-erase_ne k j ((i, w) ∷ m) h = ground (arith, find?-erase_ne k j m h)

  -- The sum of a measure over the entries.
  unfoldable pub total : (V → ℕ) → List (ℕ × V) → ℕ
  total w [] = 0
  total w ((j, v) ∷ m) = w v + total w m

  pub total-insert-some :
      (w : V → ℕ) (k : ℕ) (v old : V) (m : List (ℕ × V))
      → find? k m ≡ some old
      → total w (insert k v m) + w old ≡ total w m + w v
  unfolding find? insert total
  total-insert-some w k v old [] h = absurd (cc)
  total-insert-some w k v old ((j, x) ∷ m) h = ground (arith, total-insert-some w k v old m)

  pub total-insert-none :
      (w : V → ℕ) (k : ℕ) (v : V) (m : List (ℕ × V))
      → find? k m ≡ none
      → total w (insert k v m) ≡ total w m + w v
  unfolding find? insert total
  total-insert-none w k v [] h = omega arith
  total-insert-none w k v ((j, x) ∷ m) h = ground (arith, total-insert-none w k v m)

  pub total-erase :
      (w : V → ℕ) (k : ℕ) (old : V) (m : List (ℕ × V))
      → find? k m ≡ some old
      → total w (erase k m) + w old ≡ total w m
  unfolding find? erase total
  total-erase w k old [] h = absurd (cc)
  total-erase w k old ((j, x) ∷ m) h = ground (arith, total-erase w k old m)

  -- One entry is at most the whole.
  pub total-ge :
      (w : V → ℕ) (k : ℕ) (v : V) (m : List (ℕ × V)) → find? k m ≡ some v → w v ≤ total w m
  total-ge w k v m h = omega (arith, total-erase w k v m h)

  -- Every entry is about a key below the bound.
  abbrev pub KeysBelow : ℕ → List (ℕ × V) → Type 0
  KeysBelow n [] = Unit
  KeysBelow n ((j, v) ∷ m) = (j < n) × KeysBelow n m

  pub KeysBelow-insert :
      (n k : ℕ) (v : V) (m : List (ℕ × V)) → k < n → KeysBelow n m → KeysBelow n (insert k v m)
  unfolding insert
  KeysBelow-insert n k v [] h b = (h, tt)
  KeysBelow-insert n k v ((j, x) ∷ m) h b = ground (arith, KeysBelow-insert n k v m h b.1)

  pub KeysBelow-erase : (n k : ℕ) (m : List (ℕ × V)) → KeysBelow n m → KeysBelow n (erase k m)
  unfolding erase
  KeysBelow-erase n k [] b = tt
  KeysBelow-erase n k ((j, x) ∷ m) b = ground (arith, KeysBelow-erase n k m b.1)

  pub find?_above : (n k : ℕ) (m : List (ℕ × V)) → n ≤ k → KeysBelow n m → find? k m ≡ none
  unfolding find?
  find?_above n k [] h b = refl
  find?_above n k ((j, x) ∷ m) h b = ground (arith, find?_above n k m h b.1)

  pub find?_below :
      (n k : ℕ) (m : List (ℕ × V)) (v : V) → KeysBelow n m → find? k m ≡ some v → k < n
  unfolding find?
  find?_below n k [] v b e = absurd (cc)
  find?_below n k ((j, x) ∷ m) v b e = ground (arith, find?_below n k m v b.1)

  pub KeysBelow-suc : (n : ℕ) (m : List (ℕ × V)) → KeysBelow n m → KeysBelow (n + 1) m
  KeysBelow-suc n [] b = tt
  KeysBelow-suc n ((j, x) ∷ m) b = (omega arith, KeysBelow-suc n m b.1)

  -- A predicate of all values.
  abbrev pub AllValues {κ} : (V → Type κ) → List (ℕ × V) → Type κ
  AllValues P [] = Unit
  AllValues P ((j, v) ∷ m) = P v × AllValues P m

module _ {ℓ κ} {V : Type ℓ} (P : V → Type κ) where
  pub AllValues-insert :
      (k : ℕ) (v : V) (m : List (ℕ × V)) → P v → AllValues P m → AllValues P (insert k v m)
  unfolding insert
  AllValues-insert k v [] h a = (h, tt)
  AllValues-insert k v ((j, x) ∷ m) h a = elim (Bool-cases (j == k)) [
    | inl e ↦ rw (e, insert) (h, a.1)
    | inr e ↦ rw (e, insert) (a.0, AllValues-insert k v m h a.1)
  ]

  pub AllValues-erase : (k : ℕ) (m : List (ℕ × V)) → AllValues P m → AllValues P (erase k m)
  unfolding erase
  AllValues-erase k [] a = tt
  AllValues-erase k ((j, x) ∷ m) a = elim (Bool-cases (j == k)) [
    | inl e ↦ rw (e, erase) a.1
    | inr e ↦ rw (e, erase) (a.0, AllValues-erase k m a.1)
  ]

  pub AllValues-find? :
      (k : ℕ) (m : List (ℕ × V)) {v : V} → AllValues P m → find? k m ≡ some v → P v
  unfolding find?
  AllValues-find? k [] a e = absurd (cc)
  AllValues-find? k ((j, x) ∷ m) {v} a e = elim (Bool-cases (j == k)) [
    | inl h ↦ subst P (some-injective _ _ (rw (h, find?) at e)) a.0
    | inr h ↦ AllValues-find? k m a.1 (rw (h, find?) at e)
  ]
