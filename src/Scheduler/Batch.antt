-- ===== src/Scheduler/Batch.antt =====
-- The rest of `Scheduler::schedule`: the batch, the finished requests and the statistics.
use vllm_cpp.Prelude.{
  ℕ, ◌+◌, ◌==◌, ltb, leb, if◌then◌else◌, Bool, false, ◌&&◌, ◌||◌, Option, none, some, List, [], ◌∷◌,
  ◌++◌, length,
}
use vllm_cpp.Prelude.Assoc.{find?}
use vllm_cpp.Request.{Request, finished, get_seq_len}
use vllm_cpp.Scheduler.State.{Scheduler, free_request_blocks, is_running, is_finished}
use vllm_cpp.Scheduler.Admit.{Admission, write_back, phase_one, phase_two}

-- `batch_block_tables` holds pointers into the request map, so the ids of the requests pointed to.
pub record ScheduleOutput : Type 0 where
  pub batch_ids : List ℕ
  pub batch_seq_lens : List ℕ
  pub batch_block_tables : List ℕ
  pub new_token_ids : List ℕ
  pub is_prefill : List Bool
  pub finished_requests : List ℕ
  pub num_prompt_tokens : ℕ
  pub num_generation_tokens : ℕ

abbrev pub no_output : ScheduleOutput
no_output = record {
  batch_ids = [];
  batch_seq_lens = [];
  batch_block_tables = [];
  new_token_ids = [];
  is_prefill = [];
  finished_requests = [];
  num_prompt_tokens = 0;
  num_generation_tokens = 0;
}

unfoldable pub contains : List ℕ → ℕ → Bool
contains [] rid = false
contains (x ∷ xs) rid = x == rid || contains xs rid

-- The locals of phase 3.
pub record Batching : Type 0 where
  pub total_tokens : ℕ
  pub output : ScheduleOutput

unfoldable pub batch_request : ℕ → List ℕ → ℕ → Request → Batching → Batching
batch_request max_total newly rid req b =
    let total = b.total_tokens + get_seq_len req in
    let o = b.output in
    if ltb max_total total then record b { total_tokens = total } else record {
      total_tokens = total;
      output = record o {
        batch_ids = o.batch_ids ++ rid ∷ [];
        batch_seq_lens = o.batch_seq_lens ++ get_seq_len req ∷ [];
        batch_block_tables = o.batch_block_tables ++ rid ∷ [];
        is_prefill = o.is_prefill ++ (ltb 0 (length newly) && contains newly rid) ∷ [];
      };
    }

unfoldable pub batch_one : ℕ → List ℕ → List (ℕ × Request) → ℕ → Batching → Batching
unfolding batch_request
batch_one max_total newly m rid b = elim (find? rid m) [
  | none ↦ b
  | some req ↦ if is_running req.state then batch_request max_total newly rid req b else b
]

unfoldable pub batch_loop : ℕ → List ℕ → List (ℕ × Request) → List ℕ → Batching → Batching
batch_loop max_total newly m [] b = b
batch_loop max_total newly m (rid ∷ rids) b =
    batch_loop max_total newly m rids (batch_one max_total newly m rid b)

unfoldable pub phase_three : Admission → ScheduleOutput
phase_three a =
    (batch_loop a.sched.max_total_tokens a.newly a.sched.requests a.sched.running_ids
      (record { total_tokens = 0; output = no_output })).output

-- The locals of phase 4.
pub record Retiring : Type 0 where
  pub sched : Scheduler
  pub next_running : List ℕ
  pub reported : List ℕ

abbrev pub is_over : Request → Bool
is_over req = is_finished req.state || leb req.max_new_tokens (length req.generated_tokens)

unfoldable pub retire : ℕ → Request → Retiring → Retiring
retire rid req r =
    let (req', p') = free_request_blocks (record req { state = finished }) r.sched.pool in
    record {
      sched = write_back rid req' p' r.sched;
      next_running = r.next_running;
      reported = if is_finished req.state then r.reported else r.reported ++ rid ∷ [];
    }

unfoldable pub retire_one : ℕ → Retiring → Retiring
unfolding retire
retire_one rid r = elim (find? rid r.sched.requests) [
  | none ↦ r
  | some req ↦
      if is_over req
      then retire rid req r
      else record r { next_running = r.next_running ++ rid ∷ [] }
]

unfoldable pub retire_loop : List ℕ → Retiring → Retiring
retire_loop [] r = r
retire_loop (rid ∷ rids) r = retire_loop rids (retire_one rid r)

unfoldable pub phase_four : Scheduler → Retiring
phase_four s =
    let r = retire_loop s.running_ids (record { sched = s; next_running = []; reported = [] }) in
    record r { sched = record r.sched { running_ids = r.next_running } }

unfoldable pub prompt_size : Option Request → ℕ
prompt_size none = 0
prompt_size (some req) = length req.prompt_tokens

unfoldable pub count_prompt_tokens : List (ℕ × Request) → List ℕ → List Bool → ℕ
unfolding prompt_size
count_prompt_tokens m (rid ∷ rids) (prefill ∷ flags) =
    (if prefill then prompt_size (find? rid m) else 0) + count_prompt_tokens m rids flags
count_prompt_tokens m _ _ = 0

unfoldable pub schedule : Scheduler → Scheduler × ScheduleOutput
schedule s =
    let a = phase_two (phase_one s) in
    let o = phase_three a in
    let r = phase_four a.sched in
    (
      r.sched,
      record o {
        finished_requests = r.reported;
        num_generation_tokens = length o.batch_ids;
        num_prompt_tokens = count_prompt_tokens r.sched.requests o.batch_ids o.is_prefill;
      },
    )
