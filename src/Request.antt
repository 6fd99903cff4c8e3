-- ===== src/Request.antt =====
-- src/request.h: one prompt with its generation. Token ids are vocabulary indices, so numbers; the
-- sampling parameters are stored and passed on only, as the bit patterns of their floats.
use vllm_cpp.Prelude.{ℕ, ◌+◌, ◌-◌, ◌/◌, ◌%◌, ltb, Bool, List, ℤ, length}
use Prim.Native.String.{String}
use vllm_cpp.Config.{block_size}

pub data RequestState : Type 0 where
  waiting running finished preempted : RequestState

pub record Request : Type 0 where
  pub request_id : ℕ
  pub prompt : String
  pub prompt_tokens : List ℕ
  pub generated_tokens : List ℕ
  pub block_table : List ℤ
  pub checkpoint_blocks : List ℤ
  pub state : RequestState
  pub preempt_count : ℕ
  pub max_new_tokens : ℕ
  pub temperature : ℕ
  pub top_p : ℕ
  pub seed : ℕ

unfoldable pub get_seq_len : Request → ℕ
get_seq_len req = length req.prompt_tokens + length req.generated_tokens

-- The blocks that the tokens so far fill, the last one perhaps in part.
unfoldable pub get_num_blocks : Request → ℕ
unfolding get_seq_len
get_num_blocks req = (get_seq_len req + block_size - 1) / block_size

unfoldable pub get_last_block_offset : Request → ℕ
unfolding get_seq_len
get_last_block_offset req = get_seq_len req % block_size

unfoldable pub is_prefix_shared : Request → Bool
is_prefix_shared req = ltb 0 (length req.block_table)
