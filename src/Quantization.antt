-- ===== src/Quantization.antt =====
-- src/quantization.h and .cpp: FP8 numbers, packed INT4 weights, and the tensor that holds either.
pub mod Fp8
pub mod Int4
pub mod Tensor
pub mod Matmul
