-- ===== src/Scheduler/Ownership/History.antt =====
-- What the scheduler promises about block ownership over any history of calls.
use vllm_cpp.Prelude.{ℕ, ◌+◌, ◌≤◌, ◌≡◌, List, [], ◌∷◌, ◌++◌, ℤ, arith}
use vllm_cpp.Prelude.Assoc.{total}
use vllm_cpp.Prelude.Occurs.{occurs}
use vllm_cpp.Config.{KvDtype}
use vllm_cpp.KvCache.Pool.Refs.{refs}
use vllm_cpp.KvCache.Pool.Effects.{count_id, count_id-append}
use vllm_cpp.KvCache.Pool.History.{new_pool-IsWellFormed, refs-new_pool}
use vllm_cpp.Scheduler.State.{Scheduler, new_scheduler}
use vllm_cpp.Scheduler.Calls.{
  SchedulerCall, call_submit, call_remove, call_schedule, call_report, call, calls,
}
use vllm_cpp.Scheduler.Ownership.Outcomes.{holds}
use vllm_cpp.Scheduler.Ownership.Books.{Invariant, Invariant-eq}
use vllm_cpp.Scheduler.Ownership.Retirement.{schedule-Invariant}
use vllm_cpp.Scheduler.Ownership.Requests.{
  submit_request-Invariant, remove_request-Invariant, report_output-Invariant, NoneWaits, lost_by,
}

-- The engine reports on the requests of a batch, so on none that waits.
abbrev pub IsLegal : SchedulerCall → Scheduler → Type 0
IsLegal (call_report rids lists) s = NoneWaits rids s
IsLegal _ s = Unit

abbrev pub AreLegal : List SchedulerCall → Scheduler → Type 0
AreLegal [] s = Unit
AreLegal (c ∷ cs) s = IsLegal c s × AreLegal cs (call c s)

-- The blocks that a history has taken from the pool and forgotten.
unfoldable pub lost_in : SchedulerCall → Scheduler → List ℤ
unfolding lost_by
lost_in (call_report rids lists) s = lost_by rids lists s
lost_in _ s = []

unfoldable pub all_lost : List SchedulerCall → Scheduler → List ℤ
unfolding lost_in
all_lost [] s = []
all_lost (c ∷ cs) s = lost_in c s ++ all_lost cs (call c s)

call-Invariant :
    (leaked : ℕ → ℕ) (c : SchedulerCall) (s : Scheduler)
    → IsLegal c s
    → Invariant leaked s
    → Invariant (λ j. leaked j + count_id j (lost_in c s)) (call c s)
unfolding call lost_in count_id
call-Invariant leaked (call_submit prompt tokens n t p) s l v =
    Invariant-eq leaked _ _ (λ j. omega arith)
      (submit_request-Invariant leaked prompt tokens n t p s v)
call-Invariant leaked (call_remove rid) s l v =
    Invariant-eq leaked _ _ (λ j. omega arith) (remove_request-Invariant leaked rid s v)
call-Invariant leaked call_schedule s l v =
    Invariant-eq leaked _ _ (λ j. omega arith) (schedule-Invariant leaked s v)
call-Invariant leaked (call_report rids lists) s l v =
    report_output-Invariant leaked rids lists s l v

-- Over any history of calls whose reports name no waiting request, the books stay balanced: each
-- reference that the pool counts is in one request's table or was lost by a report that ran out of
-- blocks, no id stands in both queues or twice in one, and the waiting requests hold no block.
pub calls-Invariant :
    (leaked : ℕ → ℕ) (cs : List SchedulerCall) (s : Scheduler)
    → AreLegal cs s
    → Invariant leaked s
    → Invariant (λ j. leaked j + count_id j (all_lost cs s)) (calls cs s)
unfolding calls all_lost count_id
calls-Invariant leaked [] s l v = Invariant-eq leaked _ s (λ j. omega arith) v
calls-Invariant leaked (c ∷ cs) s l v =
    let now = lost_in c s in
    let later = all_lost cs (call c s) in
    Invariant-eq (λ j. leaked j + count_id j now + count_id j later) _ _
      (λ j. omega (arith, count_id-append j now later))
      (calls-Invariant (λ j. leaked j + count_id j now) cs (call c s) l.1
        (call-Invariant leaked c s l.0 v))

pub new_scheduler-Invariant :
    (n t l d g c : ℕ) (dtype : KvDtype) → Invariant (λ _. 0) (new_scheduler n t l d g c dtype)
unfolding new_scheduler total occurs
new_scheduler-Invariant n t l d g c dtype = record {
  accounts = record {
    exclusive = record {
      well_formed = new_pool-IsWellFormed (g + c) l d dtype;
      at_most_one = λ j. omega (arith, refs-new_pool (g + c) l d dtype j);
    };
    books = λ j. omega (arith, refs-new_pool (g + c) l d dtype j);
    keys = tt;
  };
  queues = record {
    once = λ i. omega arith;
    known = λ i h. elim h [ ];
    idle = λ i r h. elim h [ ];
  };
}

-- In every state that a new scheduler reaches by calls whose reports name no waiting request, the
-- tables of all requests together name a block at most once, and only blocks that the pool counts
-- as held; a held block that no table names was lost by a report that ran out of blocks.
pub calls_ownership :
    (n t l d g c : ℕ) (dtype : KvDtype) (cs : List SchedulerCall) (j : ℕ)
    → AreLegal cs (new_scheduler n t l d g c dtype)
    → let s0 = new_scheduler n t l d g c dtype in
      let s = calls cs s0 in
      (total (holds j) s.requests ≤ 1)
      × (refs s.pool.blocks j ≡ total (holds j) s.requests + count_id j (all_lost cs s0))
calls_ownership n t l d g c dtype cs j legal =
    let s0 = new_scheduler n t l d g c dtype in
    let v = calls-Invariant (λ _. 0) cs s0 legal (new_scheduler-Invariant n t l d g c dtype) in
    (
      omega (arith, v.accounts.books j, v.accounts.exclusive.at_most_one j),
      omega (arith, v.accounts.books j),
    )
