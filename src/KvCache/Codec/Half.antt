-- ===== src/KvCache/Codec/Half.antt =====
-- Round trips of the half-precision format.
use vllm_cpp.Prelude.{
  ℕ, zero, suc, ◌+◌, ◌-◌, ◌*◌, ◌/◌, ◌%◌, ◌^◌, ◌<◌, ◌≡◌, ◌==◌, refl, if◌then◌else◌, Bool, true,
  arith, ◌&&◌, ==→eq, ap, Bool-cases, inl, inr,
}
use vllm_cpp.KvCache.Codec.{float_to_half, half_to_float, half_bits, pack_float, subnormal_bits}

-- The fields of a packed half.
module _ (sign exp frac : ℕ) (hs : sign < 2) (he : exp < 32) (hf : frac < 2 ^ 10) where
  half_sign : half_bits sign exp frac / 2 ^ 15 % 2 ≡ sign
  unfolding half_bits
  half_sign = omega arith

  half_exp : half_bits sign exp frac / 2 ^ 10 % 2 ^ 5 ≡ exp
  unfolding half_bits
  half_exp = omega arith

  half_frac : half_bits sign exp frac % 2 ^ 10 ≡ frac
  unfolding half_bits
  half_frac = omega arith

-- The fields of a packed float.
module _ (sign exp frac : ℕ) (hs : sign < 2) (he : exp < 256) (hf : frac < 2 ^ 10) where
  float_sign : pack_float sign exp frac / 2 ^ 31 % 2 ≡ sign
  unfolding pack_float
  float_sign = omega arith

  float_exp : pack_float sign exp frac / 2 ^ 23 % 2 ^ 8 ≡ exp
  unfolding pack_float
  float_exp = omega arith

  float_frac : pack_float sign exp frac % 2 ^ 23 / 2 ^ 13 % 2 ^ 10 ≡ frac
  unfolding pack_float
  float_frac = omega arith

module _ (sign exp frac : ℕ) (hs : sign < 2) (hf : frac < 2 ^ 10) where
  normal_to_float :
      0 < exp
      → exp < 31
      → half_to_float (half_bits sign exp frac) ≡ pack_float sign (127 - 15 + exp) frac
  unfolding half_to_float
  normal_to_float h0 h31 =
      let he : exp < 32 = omega arith in
      rw
        (
          half_sign sign exp frac hs he hf,
          half_exp sign exp frac hs he hf,
          half_frac sign exp frac hs he hf,
        )
        (ground arith)

  normal_from_float :
      112 < exp
      → exp < 143
      → float_to_half (pack_float sign exp frac) ≡ half_bits sign (exp + 15 - 127) frac
  unfolding float_to_half
  normal_from_float lo hi =
      let he : exp < 256 = omega arith in
      rw
        (
          float_sign sign exp frac hs he hf,
          float_exp sign exp frac hs he hf,
          float_frac sign exp frac hs he hf,
        )
        (ground arith)

  infinite_to_float : half_to_float (half_bits sign 31 frac) ≡ sign * 2 ^ 31 + 0x7F800000
  unfolding half_to_float
  infinite_to_float =
      let he : 31 < 32 = omega arith in
      rw (half_sign sign 31 frac hs he hf, half_exp sign 31 frac hs he hf) refl

infinite_from_float :
    (sign : ℕ) → sign < 2 → float_to_half (sign * 2 ^ 31 + 0x7F800000) ≡ half_bits sign 31 0
unfolding float_to_half half_bits
infinite_from_float zero h = refl
infinite_from_float (suc zero) h = refl
infinite_from_float (suc (suc n)) h = absurd (omega arith)

-- The halves with exponent zero, of either sign, checked one by one.
every_under : (ℕ → Bool) → ℕ → Bool
every_under test zero = true
every_under test (suc limit) = every_under test limit && test limit

every_under_lem :
    (test : ℕ → Bool) (limit i : ℕ) → i < limit → every_under test limit ≡ true → test i ≡ true
unfolding every_under
every_under_lem test zero i below_limit all = elim below_limit [ ]
every_under_lem test (suc limit) i below_limit all = ground (arith, every_under_lem test limit i)

abbrev flushes : ℕ → ℕ → Bool
flushes sign frac = float_to_half (half_to_float (half_bits sign 0 frac)) == half_bits sign 0 0

flush_table : (every_under (flushes 0) 1024 && every_under (flushes 1) 1024) ≡ true
unfolding every_under float_to_half half_to_float half_bits subnormal_bits pack_float
flush_table = refl

small_flushes :
    (sign frac : ℕ)
    → sign < 2
    → frac < 2 ^ 10
    → float_to_half (half_to_float (half_bits sign 0 frac)) ≡ half_bits sign 0 0
small_flushes zero frac hs hf =
    ==→eq _ _ (every_under_lem (flushes 0) 1024 frac hf (ground (arith, flush_table)))
small_flushes (suc zero) frac hs hf =
    ==→eq _ _ (every_under_lem (flushes 1) 1024 frac hf (ground (arith, flush_table)))
small_flushes (suc (suc n)) frac hs hf = absurd (omega arith)

-- What comes back of a half that goes to a float and back.
unfoldable pub round_trip : ℕ → ℕ → ℕ → ℕ
round_trip sign exp frac =
    if exp == 0
    then half_bits sign 0 0
    else if exp == 31
    then half_bits sign 31 0
    else half_bits sign exp frac

-- A half that goes to a float and back: a normal one survives, with every bit; a subnormal one
-- becomes a zero of its sign; a NaN becomes an infinity of its sign.
pub float_to_half-half_to_float :
    (sign exp frac : ℕ)
    → sign < 2
    → exp < 32
    → frac < 2 ^ 10
    → float_to_half (half_to_float (half_bits sign exp frac)) ≡ round_trip sign exp frac
unfolding round_trip
float_to_half-half_to_float sign exp frac hs he hf = elim (Bool-cases (exp == 0)) [
  | inl e ↦ let z : exp ≡ 0 = ==→eq _ _ e in rw z (small_flushes sign frac hs hf)
  | inr e ↦ elim (Bool-cases (exp == 31)) [
    | inl i ↦
        let z : exp ≡ 31 = ==→eq _ _ i in
        rw (z, infinite_to_float sign exp frac hs hf) (infinite_from_float sign hs)
    | inr i ↦
        rw
          (
            e,
            i,
            normal_to_float sign exp frac hs hf (ground arith) (ground arith),
            normal_from_float sign (127 - 15 + exp) frac hs hf (ground arith) (ground arith),
          )
          (ap (λ k. half_bits sign k frac) (omega arith))
  ]
]
