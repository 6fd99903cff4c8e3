-- ===== src/KvCache/Codec.antt =====
-- The element formats of the KV cache: `convert_kv_to_float` and `convert_float_to_kv` of
-- src/kv_cache_manager.cpp, and the FP8 E4M3 conversions of src/quantization.cpp that they call.
-- A byte is a number below 256. Bit fields that do not overlap are joined by `+` where the source
-- writes `|`, and `x >> k`, `x & (2^k - 1)` are `x / 2 ^ k`, `x % 2 ^ k`.
pub mod Half
use vllm_cpp.Prelude.{
  ℕ, zero, suc, ◌+◌, ◌-◌, ◌*◌, ◌/◌, ◌%◌, ◌^◌, ◌==◌, leb, ltb, if◌then◌else◌, Bool, true, false, not,
  ◌&&◌, List, [], ◌∷◌, ℤ, pos, negsuc, Option, none, some,
}
use vllm_cpp.Config.{KvDtype, fp32, fp16, fp8_e4m3}
use vllm_cpp.Float.{Floats}

-- `while ((frac & 0x400) == 0) { frac <<= 1; e--; }`, over 32-bit words. A nonzero ten-bit
-- fraction takes ten rounds at most, so ten are enough fuel.
unfoldable pub normalize : ℕ → ℕ → ℕ → ℕ × ℕ
normalize zero frac e = (frac, e)
normalize (suc fuel) frac e =
    let rest = normalize fuel (frac * 2 % 2 ^ 32) ((e + 2 ^ 32 - 1) % 2 ^ 32) in
    if frac / 2 ^ 10 % 2 == 0 then rest else (frac, e)

unfoldable pub pack_float : ℕ → ℕ → ℕ → ℕ
pack_float sign exp frac = sign * 2 ^ 31 + exp * 2 ^ 23 + frac * 2 ^ 13

unfoldable pub half_bits : ℕ → ℕ → ℕ → ℕ
half_bits sign exp frac = sign * 2 ^ 15 + exp * 2 ^ 10 + frac

-- A subnormal half as a normal float.
unfoldable pub subnormal_bits : ℕ → ℕ → ℕ
unfolding normalize pack_float
subnormal_bits sign frac =
    let (frac', e) = normalize 10 frac 1 in
    pack_float sign ((127 - 15 + e) % 2 ^ 32) (frac' % 2 ^ 10)

-- The pattern of the float that a half stands for. The source's float constants are patterns too:
-- ±0.0f and ±INFINITY.
unfoldable pub half_to_float : ℕ → ℕ
half_to_float h =
    let sign = h / 2 ^ 15 % 2 in
    let exp = h / 2 ^ 10 % 2 ^ 5 in
    let frac = h % 2 ^ 10 in
    if exp == 0
    then if frac == 0 then sign * 2 ^ 31 else subnormal_bits sign frac
    else if exp == 31
    then sign * 2 ^ 31 + 0x7F800000
    else pack_float sign (127 - 15 + exp) frac

-- The half for a float's pattern. The fraction is cut, not rounded.
unfoldable pub float_to_half : ℕ → ℕ
float_to_half bits =
    let sign = bits / 2 ^ 31 % 2 in
    let exp = bits / 2 ^ 23 % 2 ^ 8 in
    let frac = bits % 2 ^ 23 in
    if exp == 0xFF
    then half_bits sign 0x1F (if frac == 0 then 0 else 1)
    else if exp == 0
    then half_bits sign 0 0
    else if leb (exp + 15) 127
    then half_bits sign 0 0
    else if leb 31 (exp + 15 - 127)
    then half_bits sign 0x1F 0
    else half_bits sign (exp + 15 - 127) (frac / 2 ^ 13 % 2 ^ 10)
