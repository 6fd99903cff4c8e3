-- ===== src/Prelude/Texts.antt =====
-- Texts as lists of bytes: equality, search in a map with text keys, and pieces put together.
use Prim.Native.Nat.{ℕ}
use Prim.Native.Char.{code}
use Prim.Native.String.{String}
use mathlib.Core.Path.{◌≡◌, refl}
use mathlib.Core.Bool.{Bool, true, false, ◌&&◌}
use mathlib.Core.Option.{Option, none, some}
use mathlib.Core.List.{List, [], ◌∷◌, ◌++◌, append_assoc, flatten}
use native.Mathlib.Omega.{arith}
use vllm_cpp.Prelude.Tests.{◌==◌, if◌then◌else◌}

-- The bytes of an ASCII literal.
abbrev pub bytes : String → List ℕ
bytes String.[] = []
bytes (String.◌∷◌ letter rest) = code letter ∷ bytes rest

unfoldable pub same : List ℕ → List ℕ → Bool
same [] [] = true
same (a ∷ s) (b ∷ t) = (a == b) && same s t
same _ _ = false

pub same_refl : (s : List ℕ) → same s s ≡ true
unfolding same
same_refl [] = refl
same_refl (a ∷ s) = ground (arith, same_refl s)

pub same→eq : (s t : List ℕ) → same s t ≡ true → s ≡ t
unfolding same
same→eq [] [] h = refl
same→eq [] (b ∷ t) h = absurd (cc)
same→eq (a ∷ s) [] h = absurd (cc)
same→eq (a ∷ s) (b ∷ t) h = ground (arith, same→eq s t)

pub flatten-append {ℓ} :
    {A : Type ℓ} (ps qs : List (List A)) → flatten (ps ++ qs) ≡ flatten ps ++ flatten qs
unfolding flatten
flatten-append [] qs = refl
flatten-append (p ∷ ps) qs = rw (append_assoc, flatten-append ps qs) refl

-- A `std::map` with text keys.
module _ {ℓ} {V : Type ℓ} where
  unfoldable pub entry? : List ℕ → List (List ℕ × V) → Option V
  entry? s [] = none
  entry? s ((key, v) ∷ entries) = if same key s then some v else entry? s entries

  unfoldable pub assign : List ℕ → V → List (List ℕ × V) → List (List ℕ × V)
  assign s v [] = (s, v) ∷ []
  assign s v ((key, old) ∷ entries) =
      if same key s then (key, v) ∷ entries else (key, old) ∷ assign s v entries
