-- ===== src/Scheduler/State.antt =====
-- The scheduler's state, and what it does to one request's blocks: src/scheduler.h and .cpp.
pub use vllm_cpp.Prelude.{is_empty}
use vllm_cpp.Prelude.{
  ℕ, ◌+◌, ◌==◌, leb, if◌then◌else◌, Bool, true, false, not, ◌&&◌, List, [], length,
}
use vllm_cpp.Config.{KvDtype}
use vllm_cpp.KvCache.Pool.{BlockPool, new_pool}
use vllm_cpp.KvCache.Manager.{alloc_blocks, free_blocks, copy_blocks, free_blocks_count}
use vllm_cpp.Request.{Request, RequestState, waiting, running, finished, preempted, get_num_blocks}

pub record Scheduler : Type 0 where
  pub max_num_seqs : ℕ
  pub max_total_tokens : ℕ
  pub requests : List (ℕ × Request)
  pub next_request_id : ℕ
  pub pool : BlockPool
  pub running_ids : List ℕ
  pub waiting_ids : List ℕ

unfoldable pub new_scheduler : ℕ → ℕ → ℕ → ℕ → ℕ → ℕ → KvDtype → Scheduler
new_scheduler max_num_seqs max_total_tokens num_layers kv_dim gpu_blocks cpu_blocks dtype = record {
  max_num_seqs = max_num_seqs;
  max_total_tokens = max_total_tokens;
  requests = [];
  next_request_id = 0;
  pool = new_pool (gpu_blocks + cpu_blocks) num_layers kv_dim dtype;
  running_ids = [];
  waiting_ids = [];
}

abbrev pub is_waiting : RequestState → Bool
is_waiting waiting = true
is_waiting _ = false

abbrev pub is_running : RequestState → Bool
is_running running = true
is_running _ = false

abbrev pub is_finished : RequestState → Bool
is_finished finished = true
is_finished _ = false

abbrev pub is_preempted : RequestState → Bool
is_preempted preempted = true
is_preempted _ = false

unfoldable pub can_allocate : Scheduler → Request → Bool
can_allocate s req =
    leb (get_num_blocks req) (free_blocks_count s.pool)
    && leb (length s.running_ids + (if is_waiting req.state then 1 else 0)) s.max_num_seqs

-- A request and the pool after a call on them, and the call's result.
pub record Outcome : Type 0 where
  pub done : Bool
  pub request : Request
  pub pool : BlockPool

unfoldable pub allocate_request : Request → BlockPool → Outcome
allocate_request req p =
    let r = alloc_blocks (get_num_blocks req) p in
    if get_num_blocks req == 0
    then record { done = true; request = req; pool = p }
    else if r.done
    then record {
      done = true;
      request = record req { block_table = r.out; state = running };
      pool = r.pool;
    }
    else record { done = false; request = req; pool = r.pool }

unfoldable pub free_table : Request → BlockPool → Request × BlockPool
free_table req p =
    if is_empty req.block_table
    then (req, p)
    else (record req { block_table = [] }, free_blocks req.block_table p)

unfoldable pub free_request_blocks : Request → BlockPool → Request × BlockPool
unfolding free_table
free_request_blocks req p =
    let (req', p') = free_table req p in
    if is_empty req'.checkpoint_blocks
    then (req', p')
    else (record req' { checkpoint_blocks = [] }, p')

unfoldable pub checkpoint_request : Request → Request
checkpoint_request req = record req { checkpoint_blocks = req.block_table }

abbrev same_length {ℓ} : {A : Type ℓ} → List A → List A → Bool
same_length xs ys = length xs == length ys

unfoldable pub copy_checkpoint : Outcome → Outcome
copy_checkpoint o =
    let req = o.request in
    if not (is_empty req.checkpoint_blocks) && same_length req.block_table req.checkpoint_blocks
    then record o { pool = copy_blocks req.checkpoint_blocks req.block_table o.pool }
    else o

unfoldable pub restore_request : Request → BlockPool → Outcome
unfolding copy_checkpoint
restore_request req p =
    if is_empty req.checkpoint_blocks
    then record { done = false; request = req; pool = p }
    else let o = allocate_request req p in if o.done then copy_checkpoint o else o
