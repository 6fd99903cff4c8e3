-- ===== src/Tests/Schedulers.antt =====
-- The scheduler's properties at concrete schedulers.
use vllm_cpp.Prelude.{ℕ, ◌+◌, ◌≤◌, ◌≡◌, refl, List, [], ◌∷◌, pos, arith, some, length, map, false}
use vllm_cpp.Prelude.Assoc.{find?, total, insert}
use vllm_cpp.Prelude.Occurs.{occurs}
use vllm_cpp.Config.{fp8_e4m3}
use vllm_cpp.KvCache.Pool.{BlockPool, alloc, new_pool}
use vllm_cpp.KvCache.Pool.Refs.{refs}
use vllm_cpp.KvCache.Pool.Effects.{count_id}
use vllm_cpp.Scheduler.State.{
  Scheduler, restore_request, new_scheduler, allocate_request, can_allocate,
}
use vllm_cpp.Scheduler.Admit.{
  Admission, preempt_requests, readmit, phase_one, phase_two, admission_loop, admit, admit_by_state,
  for_each, attempt, settle, write_back, defer,
}
use vllm_cpp.Scheduler.Batch.{
  phase_three, contains, phase_four, retire_loop, retire_one, retire, schedule,
}
use vllm_cpp.KvCache.Manager.{alloc_blocks, alloc_loop, free_blocks_count}
use vllm_cpp.Request.{Request, waiting, preempted, running, get_num_blocks, get_seq_len}
use vllm_cpp.Scheduler.Calls.{
  SchedulerCall, call_submit, call_schedule, call_report, calls, submit_request, new_request,
  report_output,
}
use vllm_cpp.Scheduler.Ownership.Outcomes.{holds, IsSound, allocate_request-IsSound}
use vllm_cpp.Scheduler.Ownership.Books.{Invariant}
use vllm_cpp.Scheduler.Ownership.Preemption.{Preempts, preempt_requests_lem}
use vllm_cpp.Scheduler.Ownership.Retirement.{schedule-Invariant}
use vllm_cpp.Scheduler.Ownership.Requests.{report_output-Invariant, lost_by}
use vllm_cpp.Scheduler.Checkpoints.{calls-restore_request}
use vllm_cpp.Scheduler.Limits.{calls-length-running, readmit_over_limit}
use vllm_cpp.Scheduler.Progress.{Started, phase_one-head}
use vllm_cpp.Scheduler.Fitting.{phase_three_lem, fitting, ids, lens, sum}
use vllm_cpp.Scheduler.Ownership.History.{
  AreLegal, all_lost, calls_ownership, calls-Invariant, new_scheduler-Invariant,
}

-- Two blocks, and one request that is submitted, admitted, given a token, and another.
abbrev start : Scheduler
start = new_scheduler 1 100 1 1 2 0 fp8_e4m3

abbrev history : List SchedulerCall
history =
    call_submit "a" (7 ∷ 8 ∷ []) 4 0 0
    ∷ call_schedule
    ∷ call_report (0 ∷ []) ((9 ∷ []) ∷ [])
    ∷ call_submit "b" (5 ∷ []) 4 0 0
    ∷ call_schedule
    ∷ []

history-legal : AreLegal history start
unfolding calls occurs phase_one phase_two phase_four submit_request new_request new_scheduler
    schedule insert find? admission_loop admit admit_by_state for_each attempt settle write_back
    allocate_request alloc_blocks alloc_loop alloc get_num_blocks get_seq_len can_allocate
    free_blocks_count new_pool retire_loop retire_one retire defer
    vllm_cpp.Scheduler.Admit.total_needed vllm_cpp.KvCache.Pool.free_count
history-legal = (tt, (tt, ((refl, tt), (tt, (tt, tt)))))

busy-running :
    occurs 0
      (calls
        (call_submit "a" (7 ∷ 8 ∷ []) 4 0 0 ∷ call_schedule ∷ call_submit "b" (5 ∷ []) 4 0 0 ∷ [])
        start).waiting_ids
    ≡ 0
unfolding calls occurs phase_one phase_two phase_four submit_request new_request new_scheduler
    schedule insert find? admission_loop admit admit_by_state for_each attempt settle write_back
    allocate_request alloc_blocks alloc_loop alloc get_num_blocks get_seq_len can_allocate
    free_blocks_count new_pool retire_loop retire_one retire defer
    vllm_cpp.Scheduler.Admit.total_needed vllm_cpp.KvCache.Pool.free_count
busy-running = refl

calls_ownership_example :
    (total (holds 0) (calls history start).requests ≤ 1)
    × (refs (calls history start).pool.blocks 0
        ≡ total (holds 0) (calls history start).requests + count_id 0 (all_lost history start))
calls_ownership_example = calls_ownership 1 100 1 1 2 0 fp8_e4m3 history 0 history-legal

calls-Invariant_example :
    Invariant (λ j. 0 + count_id j (all_lost history start)) (calls history start)
calls-Invariant_example =
    calls-Invariant (λ _. 0) history start history-legal
      (new_scheduler-Invariant 1 100 1 1 2 0 fp8_e4m3)

-- The scheduler while its first request runs and a second one waits.
abbrev busy_history : List SchedulerCall
busy_history =
    call_submit "a" (7 ∷ 8 ∷ []) 4 0 0 ∷ call_schedule ∷ call_submit "b" (5 ∷ []) 4 0 0 ∷ []

abbrev busy : Scheduler
busy = calls busy_history start

abbrev no_leak : ℕ → ℕ
no_leak j = 0 + count_id j (all_lost busy_history start)

busy-Invariant : Invariant no_leak busy
busy-Invariant =
    calls-Invariant (λ _. 0) busy_history start (tt, (tt, (tt, tt)))
      (new_scheduler-Invariant 1 100 1 1 2 0 fp8_e4m3)

schedule-Invariant_example : Invariant no_leak (schedule busy).0
schedule-Invariant_example = schedule-Invariant no_leak busy busy-Invariant

preempt_requests_lem_example : Preempts no_leak 1 busy (preempt_requests 1 busy)
preempt_requests_lem_example = preempt_requests_lem no_leak 1 busy busy-Invariant

report_output-Invariant_example :
    Invariant
      (λ j. no_leak j + count_id j (lost_by (0 ∷ []) ((9 ∷ []) ∷ []) busy))
      (report_output (0 ∷ []) ((9 ∷ []) ∷ []) busy)
report_output-Invariant_example =
    report_output-Invariant no_leak (0 ∷ []) ((9 ∷ []) ∷ []) busy (busy-running, tt) busy-Invariant

calls-length-running_example : length (calls history start).running_ids ≤ 2
calls-length-running_example = calls-length-running 1 100 1 1 2 0 fp8_e4m3 history

-- A preempted request with two tokens.
abbrev evicted : Request
evicted = record {
  request_id = 0;
  prompt = "a";
  prompt_tokens = 7 ∷ 8 ∷ [];
  generated_tokens = [];
  block_table = [];
  checkpoint_blocks = [];
  state = preempted;
  preempt_count = 1;
  max_new_tokens = 4;
  temperature = 0;
  top_p = 0;
  seed = 0;
}

allocate_request-IsSound_example : IsSound evicted start.pool (allocate_request evicted start.pool)
unfolding get_num_blocks new_scheduler new_pool get_seq_len vllm_cpp.KvCache.Pool.free_count
allocate_request-IsSound_example =
    allocate_request-IsSound evicted start.pool
      (new_scheduler-Invariant 1 100 1 1 2 0 fp8_e4m3).accounts.exclusive refl (omega arith)

-- A scheduler for one request, which runs, and the evicted one.
abbrev full : Admission
full = record {
  sched = record start { requests = (0, evicted) ∷ []; running_ids = 5 ∷ [] };
  newly = [];
  next = [];
}

readmit_over_limit_example :
    length (readmit 0 full).sched.running_ids ≡ (readmit 0 full).sched.max_num_seqs + 1
unfolding get_num_blocks new_scheduler new_pool get_seq_len vllm_cpp.KvCache.Pool.free_count find?
readmit_over_limit_example =
    readmit_over_limit 0 evicted full refl refl (omega arith) (omega arith)
      (new_scheduler-Invariant 1 100 1 1 2 0 fp8_e4m3).accounts.exclusive refl

phase_three_lem_example :
    let l =
      fitting
        (phase_one busy).sched.max_total_tokens
        (phase_one busy).sched.requests
        (phase_one busy).sched.running_ids in
    ((phase_three (phase_one busy)).batch_ids ≡ ids l)
    × ((phase_three (phase_one busy)).batch_seq_lens ≡ lens l)
    × ((phase_three (phase_one busy)).batch_block_tables ≡ ids l)
    × ((phase_three (phase_one busy)).is_prefill ≡ map (contains (phase_one busy).newly) (ids l))
    × (sum (phase_three (phase_one busy)).batch_seq_lens ≤ (phase_one busy).sched.max_total_tokens)
phase_three_lem_example = phase_three_lem (phase_one busy)

-- One block for two requests: the second one evicts the first, which
-- then takes the block again.
abbrev evicting : List SchedulerCall
evicting =
    call_submit "a" (7 ∷ 8 ∷ []) 4 0 0
    ∷ call_schedule
    ∷ call_submit "b" (5 ∷ []) 4 0 0
    ∷ call_schedule
    ∷ []

abbrev readmitted : Request
readmitted = record evicted { block_table = pos 0 ∷ []; state = running }

evicting-find? :
    find? 0 (calls evicting (new_scheduler 2 100 1 1 1 0 fp8_e4m3)).requests ≡ some readmitted
unfolding calls occurs phase_one phase_two phase_four submit_request new_request new_scheduler
    schedule insert find? admission_loop admit admit_by_state for_each attempt settle write_back
    allocate_request alloc_blocks alloc_loop alloc get_num_blocks get_seq_len can_allocate
    free_blocks_count new_pool retire_loop retire_one retire defer
    vllm_cpp.Scheduler.Admit.total_needed vllm_cpp.KvCache.Pool.free_count
    vllm_cpp.Scheduler.Admit.preempt_requests vllm_cpp.Scheduler.Admit.requeue
    vllm_cpp.Scheduler.Admit.preempt_loop vllm_cpp.Scheduler.Admit.preempt_one readmit
    vllm_cpp.Scheduler.State.free_request_blocks vllm_cpp.Scheduler.State.checkpoint_request
    vllm_cpp.KvCache.Manager.free_blocks vllm_cpp.KvCache.Pool.free
    vllm_cpp.Scheduler.Admit.remove_id
evicting-find? = refl

calls-restore_request_example :
    restore_request readmitted start.pool
    ≡ record { done = false; request = readmitted; pool = start.pool }
calls-restore_request_example =
    calls-restore_request 2 100 1 1 1 0 fp8_e4m3 evicting 0 readmitted start.pool evicting-find?

-- A request of two tokens that waits.
abbrev queued_history : List SchedulerCall
queued_history = call_submit "a" (7 ∷ 8 ∷ []) 4 0 0 ∷ []

abbrev queued : Request
queued = record {
  request_id = 0;
  prompt = "a";
  prompt_tokens = 7 ∷ 8 ∷ [];
  generated_tokens = [];
  block_table = [];
  checkpoint_blocks = [];
  state = waiting;
  preempt_count = 0;
  max_new_tokens = 4;
  temperature = 0;
  top_p = 0;
  seed = 0;
}

phase_one-head_example : Started 0 queued (phase_one (calls queued_history start))
unfolding calls submit_request new_request new_scheduler insert find? get_num_blocks get_seq_len
    new_pool vllm_cpp.KvCache.Pool.free_count
phase_one-head_example =
    phase_one-head (λ j. 0 + count_id j (all_lost queued_history start)) 0 [] queued
      (calls queued_history start)
      (calls-Invariant (λ _. 0) queued_history start (tt, tt)
        (new_scheduler-Invariant 1 100 1 1 2 0 fp8_e4m3))
      refl refl refl (omega arith) (omega arith) (omega arith)
