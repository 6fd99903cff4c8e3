-- ===== src/Quantization/Fp8.antt =====
-- The FP8 conversions of src/quantization.cpp. The source's table `g_e4m3_to_float` holds
-- `compute_e4m3_to_float` of each byte from the first conversion on, so a lookup is that call.
pub mod Nearest
use vllm_cpp.Prelude.{
  ℕ, zero, suc, ◌+◌, ◌-◌, ◌*◌, ◌/◌, ◌%◌, ◌^◌, ◌==◌, leb, ltb, if◌then◌else◌, Bool, true, false, not,
  ◌&&◌, List, [], ◌∷◌, map, ℤ, pos, negsuc,
}
use vllm_cpp.Float.{Floats}

-- The C++ int `a - b`.
abbrev pub minus : ℕ → ℕ → ℤ
minus a b = if leb b a then pos (a - b) else negsuc (b - a - 1)

module _ (fl : Floats) where
  open fl use {
    Float, of_ℕ, add, sub, mul, div, neg, fabs, ldexp, lt, is_zero, is_nan, is_inf, signbit,
    infinity, nan,
  }

  abbrev signed : ℕ → Float → Float
  signed sign x = if sign == 1 then neg x else x

  unfoldable pub compute_e4m3_to_float : ℕ → Float
  compute_e4m3_to_float bits =
      let sign = bits / 2 ^ 7 % 2 in
      let exp = bits / 2 ^ 3 % 2 ^ 4 in
      let mant = bits % 2 ^ 3 in
      if exp == 0xF
      then if mant == 7 then nan else if mant == 6 then signed sign infinity else nan
      else if exp == 0
      then signed sign (mul (div (of_ℕ mant) (of_ℕ 8)) (ldexp (of_ℕ 1) (negsuc 5)))
      else signed sign
          (mul (add (of_ℕ 1) (div (of_ℕ mant) (of_ℕ 8))) (ldexp (of_ℕ 1) (minus exp 7)))

  unfoldable pub fp8_e5m2_to_float : ℕ → Float
  fp8_e5m2_to_float bits =
      let sign = bits / 2 ^ 7 % 2 in
      let exp = bits / 2 ^ 2 % 2 ^ 5 in
      let mant = bits % 2 ^ 2 in
      if exp == 0x1F
      then if mant == 0 then signed sign infinity else nan
      else if exp == 0
      then signed sign (mul (div (of_ℕ mant) (of_ℕ 4)) (ldexp (of_ℕ 1) (negsuc 13)))
      else signed sign
          (mul (add (of_ℕ 1) (div (of_ℕ mant) (of_ℕ 4))) (ldexp (of_ℕ 1) (minus exp 15)))

  -- The distance of a candidate from the magnitude `v`.
  unfoldable pub candidate_err : (ℕ → Float) → Float → ℕ → Float
  candidate_err decode v i = fabs (sub v (fabs (decode i)))

  -- The search over the bytes `i`, `i + 1`, … of one sign for the closest value.
  unfoldable pub nearest : (ℕ → Float) → ℕ → Float → ℕ → ℕ → ℕ → Float → ℕ
  nearest decode sign v zero i best best_err = best
  nearest decode sign v (suc n) i best best_err =
      let err = candidate_err decode v i in
      let better = i / 2 ^ 7 % 2 == sign && lt err best_err in
      nearest decode sign v n (i + 1) (if better then i else best)
        (if better then err else best_err)

  abbrev sign_of : Bool → ℕ
  sign_of negative = if negative then 1 else 0

  unfoldable pub compute_float_to_e4m3 : Float → ℕ
  unfolding nearest
  compute_float_to_e4m3 v =
      let sign = sign_of (lt v (of_ℕ 0)) in
      if is_nan v
      then 0xFF
      else if is_inf v
      then if lt (of_ℕ 0) v then 0x7E else 0xFE
      else if is_zero (fabs v)
      then sign * 2 ^ 7
      else nearest compute_e4m3_to_float sign (fabs v) 256 0 0 infinity

  unfoldable pub float_to_fp8_e4m3 : Float → ℕ
  unfolding nearest
  float_to_fp8_e4m3 v =
      let sign = sign_of (signbit v) in
      if is_nan v
      then 0xFF
      else if is_inf v
      then if lt (of_ℕ 0) v then 0x7E else 0xFE
      else if is_zero v
      then sign * 2 ^ 7
      else nearest compute_e4m3_to_float sign (fabs v) 256 0 0 infinity

  unfoldable pub float_to_fp8_e5m2 : Float → ℕ
  unfolding nearest
  float_to_fp8_e5m2 v =
      if is_nan v
      then 0x7F
      else if is_inf v
      then if lt (of_ℕ 0) v then 0x7C else 0xFC
      else if is_zero v
      then sign_of (signbit v) * 2 ^ 7
      else nearest fp8_e5m2_to_float (sign_of (lt v (of_ℕ 0))) (fabs v) 256 0 0 infinity

  unfoldable pub fp8_e4m3_to_float_batch : List ℕ → List Float
  fp8_e4m3_to_float_batch src = map compute_e4m3_to_float src

  unfoldable pub float_to_fp8_e4m3_batch : List Float → List ℕ
  float_to_fp8_e4m3_batch src = map compute_float_to_e4m3 src
