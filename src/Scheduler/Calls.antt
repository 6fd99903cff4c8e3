-- ===== src/Scheduler/Calls.antt =====
-- The scheduler's other public methods. Each holds its mutex throughout, so each is one step.
use vllm_cpp.Prelude.{
  ℕ, ◌+◌, ◌-◌, ltb, if◌then◌else◌, Option, none, some, List, [], ◌∷◌, ◌++◌, length,
}
use Prim.Native.String.{String}
use vllm_cpp.Config.{eos_token_id}
use vllm_cpp.Prelude.Assoc.{find?, insert, erase, total}
use vllm_cpp.KvCache.Pool.{BlockPool}
use vllm_cpp.KvCache.Manager.{alloc_blocks}
use vllm_cpp.Request.{Request, waiting, finished, get_num_blocks}
use vllm_cpp.Scheduler.State.{Scheduler, free_request_blocks, is_preempted, is_finished}
use vllm_cpp.Scheduler.Admit.{remove_id, write_back}
use vllm_cpp.Scheduler.Batch.{contains, schedule}

unfoldable pub new_request : ℕ → String → List ℕ → ℕ → ℕ → ℕ → Request
new_request id prompt tokens max_new temperature top_p = record {
  request_id = id;
  prompt = prompt;
  prompt_tokens = tokens;
  generated_tokens = [];
  block_table = [];
  checkpoint_blocks = [];
  state = waiting;
  preempt_count = 0;
  max_new_tokens = max_new;
  temperature = temperature;
  top_p = top_p;
  seed = 0;
}

-- The new scheduler and the new request's id.
unfoldable pub submit_request : String → List ℕ → ℕ → ℕ → ℕ → Scheduler → Scheduler × ℕ
unfolding new_request
submit_request prompt tokens max_new temperature top_p s =
    let id = s.next_request_id in
    (
      record s {
        requests = insert id (new_request id prompt tokens max_new temperature top_p) s.requests;
        next_request_id = id + 1;
        waiting_ids = s.waiting_ids ++ id ∷ [];
      },
      id,
    )

unfoldable pub drop_request : ℕ → Request → Scheduler → Scheduler
drop_request rid req s = record s {
  requests = erase rid s.requests;
  pool = (free_request_blocks req s.pool).1;
  waiting_ids = remove_id rid s.waiting_ids;
  running_ids = remove_id rid s.running_ids;
}

unfoldable pub remove_request : ℕ → Scheduler → Scheduler
unfolding drop_request
remove_request rid s = elim (find? rid s.requests) [ none ↦ s | some req ↦ drop_request rid req s ]

-- The tokens are appended, and an end-of-text token among them finishes the request.
unfoldable pub take_tokens : List ℕ → Request → Request
take_tokens tokens req = record req {
  generated_tokens = req.generated_tokens ++ tokens;
  state = if contains tokens eos_token_id then finished else req.state;
}

-- More blocks where the tokens have outgrown the table. What a failed call took is not kept.
unfoldable pub grow_table : Request → BlockPool → Request × BlockPool
grow_table req p =
    let r = alloc_blocks (get_num_blocks req - length req.block_table) p in
    if ltb (length req.block_table) (get_num_blocks req)
    then if r.done
      then (record req { block_table = req.block_table ++ r.out }, r.pool)
      else (req, r.pool)
    else (req, p)

unfoldable pub report_one : ℕ → List ℕ → Scheduler → Scheduler
report_one rid tokens s = elim (find? rid s.requests) [
  | none ↦ s
  | some req ↦
      let (req', p') = grow_table (take_tokens tokens req) s.pool in write_back rid req' p' s
]

-- The callers pass as many token lists as ids; the source indexes past the end otherwise.
unfoldable pub report_output : List ℕ → List (List ℕ) → Scheduler → Scheduler
unfolding report_one
report_output (rid ∷ rids) (tokens ∷ lists) s = report_output rids lists (report_one rid tokens s)
report_output _ _ s = s

unfoldable pub get_request : ℕ → Scheduler → Option Request
get_request rid s = find? rid s.requests

unfoldable pub num_waiting : Scheduler → ℕ
num_waiting s = length s.waiting_ids

unfoldable pub num_running : Scheduler → ℕ
num_running s = length s.running_ids

unfoldable pub num_swapped : Scheduler → ℕ
num_swapped s = total (λ req. if is_preempted req.state then 1 else 0) s.requests

unfoldable pub num_finished : Scheduler → ℕ
num_finished s = total (λ req. if is_finished req.state then 1 else 0) s.requests

-- One public call that changes the scheduler.
pub data SchedulerCall : Type 0 where
  call_submit : String → List ℕ → (max_new temperature top_p : ℕ) → SchedulerCall
  call_remove : ℕ → SchedulerCall
  call_schedule : SchedulerCall
  call_report : List ℕ → List (List ℕ) → SchedulerCall

unfoldable pub call : SchedulerCall → Scheduler → Scheduler
unfolding submit_request remove_request schedule report_output
call (call_submit prompt tokens n t p) s = (submit_request prompt tokens n t p s).0
call (call_remove rid) s = remove_request rid s
call call_schedule s = (schedule s).0
call (call_report rids lists) s = report_output rids lists s

unfoldable pub calls : List SchedulerCall → Scheduler → Scheduler
unfolding call
calls [] s = s
calls (c ∷ cs) s = calls cs (call c s)
