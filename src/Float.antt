-- ===== src/Float.antt =====
-- What the program takes from the hardware and <cmath>: binary32 numbers and their operations. The
-- only laws are those of storage: a float is a pattern of 32 bits, and reading a stored pattern
-- back gives the float.
use vllm_cpp.Prelude.{ℕ, ◌<◌, ◌^◌, ◌≡◌, Bool, ℤ}

pub record Floats : Type 1 where
  pub Float : Type 0
  pub of_bits : ℕ → Float
  pub to_bits : Float → ℕ
  pub of_bits-to_bits : (x : Float) → of_bits (to_bits x) ≡ x
  pub to_bits_lt : (x : Float) → to_bits x < 2 ^ 32
  pub of_ℕ : ℕ → Float
  pub of_int : ℤ → Float
  -- The literals 1e-9f and -1e9f, INFINITY and nanf("").
  pub epsilon : Float
  pub lowest : Float
  pub infinity : Float
  pub nan : Float
  pub add : Float → Float → Float
  pub sub : Float → Float → Float
  pub mul : Float → Float → Float
  pub div : Float → Float → Float
  pub neg : Float → Float
  pub fabs : Float → Float
  pub ldexp : Float → ℤ → Float
  pub exp : Float → Float
  pub sqrt : Float → Float
  pub cos : Float → Float
  pub sin : Float → Float
  pub lt : Float → Float → Bool
  pub le : Float → Float → Bool
  pub eq : Float → Float → Bool
  pub is_zero : Float → Bool
  pub is_nan : Float → Bool
  pub is_inf : Float → Bool
  pub signbit : Float → Bool
