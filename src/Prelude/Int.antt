-- ===== src/Prelude/Int.antt =====
-- Signed integers over the native numbers, under the library's names. `negsuc n` is -(n + 1).
use Prim.Native.Nat.{ℕ}
use mathlib.Core.Option.{Option, none, some}
use vllm_cpp.Prelude.Tests.{ltb, if◌then◌else◌}

pub data ℤ : Type 0 where
  pos : ℕ → ℤ
  negsuc : ℕ → ℤ

-- The guard `z < 0 || z >= n`: `none` where it rejects, and otherwise the number in range.
abbrev pub below : ℤ → ℕ → Option ℕ
below (pos i) n = if ltb i n then some i else none
below (negsuc _) n = none
