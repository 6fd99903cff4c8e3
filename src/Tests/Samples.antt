-- ===== src/Tests/Samples.antt =====
-- Arithmetic on two values, which has the laws of storage and of a strict order.
use vllm_cpp.Prelude.{
  ℕ, ◌<◌, ◌^◌, ◌==◌, ◌≡◌, refl, if◌then◌else◌, Bool, true, false, ℤ, pos, negsuc, arith,
}
use vllm_cpp.Float.{Floats}
use vllm_cpp.Quantization.Fp8.Nearest.{IsStrict}

pub data Sample : Type 0 where
  low high : Sample

-- The pattern of 0.0f and that of 1.0f.
abbrev sample_bits : Sample → ℕ
sample_bits low = 0
sample_bits high = 0x3F800000

abbrev sample_of : ℕ → Sample
sample_of w = if w == 0 then low else high

abbrev least : Sample → Sample → Sample
least low y = low
least high y = y

abbrev most : Sample → Sample → Sample
most low y = y
most high y = high

abbrev below_sample : Sample → Sample → Bool
below_sample low high = true
below_sample _ _ = false

abbrev below_or_equal : Sample → Sample → Bool
below_or_equal high low = false
below_or_equal _ _ = true

abbrev equal_sample : Sample → Sample → Bool
equal_sample low low = true
equal_sample high high = true
equal_sample _ _ = false

abbrev is_low : Sample → Bool
is_low low = true
is_low high = false

abbrev of_sign : ℤ → Sample
of_sign (pos n) = sample_of n
of_sign (negsuc n) = high

pub round_trip_sample : (x : Sample) → sample_of (sample_bits x) ≡ x
round_trip_sample low = refl
round_trip_sample high = refl

pub sample_bits_lt : (x : Sample) → sample_bits x < 2 ^ 32
sample_bits_lt low = omega arith
sample_bits_lt high = omega arith

abbrev pub samples : Floats
samples = record {
  Float = Sample;
  of_bits = sample_of;
  to_bits = sample_bits;
  of_bits-to_bits = round_trip_sample;
  to_bits_lt = sample_bits_lt;
  of_ℕ = sample_of;
  of_int = of_sign;
  epsilon = low;
  lowest = low;
  infinity = high;
  nan = high;
  add = most;
  sub = least;
  mul = least;
  div = least;
  neg = λ x. x;
  fabs = λ x. x;
  ldexp = λ x n. x;
  exp = λ x. x;
  sqrt = λ x. x;
  cos = λ x. x;
  sin = λ x. x;
  lt = below_sample;
  le = below_or_equal;
  eq = equal_sample;
  is_zero = is_low;
  is_nan = λ x. false;
  is_inf = λ x. false;
  signbit = λ x. false;
}

below_sample_trans :
    (a b c : Sample) → below_sample a b ≡ true → below_sample b c ≡ true → below_sample a c ≡ true
below_sample_trans low b high h g = refl
below_sample_trans low high low h g = g
below_sample_trans low low low h g = h
below_sample_trans high low c h g = absurd (cc)
below_sample_trans high high c h g = absurd (cc)

below_sample_irrefl : (a : Sample) → below_sample a a ≡ false
below_sample_irrefl low = refl
below_sample_irrefl high = refl

pub samples-IsStrict : IsStrict samples
samples-IsStrict = record { trans = below_sample_trans; irrefl = below_sample_irrefl }
