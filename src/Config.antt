-- ===== src/Config.antt =====
-- src/config.h: the constants and enums that the modelled parts read.
use vllm_cpp.Prelude.{ℕ}

abbrev pub block_size : ℕ
block_size = 16

abbrev pub max_context : ℕ
max_context = 32768

abbrev pub eos_token_id : ℕ
eos_token_id = 151645

abbrev pub im_start_token_id : ℕ
im_start_token_id = 151644

abbrev pub im_end_token_id : ℕ
im_end_token_id = 151645

-- The patterns of the floats TEMPERATURE, TOP_P and REPEAT_PENALTY: 0.7f, 0.8f and 1.1f.
abbrev pub temperature : ℕ
temperature = 0x3F333333

abbrev pub top_p : ℕ
top_p = 0x3F4CCCCD

abbrev pub repeat_penalty : ℕ
repeat_penalty = 0x3F8CCCCD

pub data KvDtype : Type 0 where
  fp32 fp16 fp8_e4m3 : KvDtype
