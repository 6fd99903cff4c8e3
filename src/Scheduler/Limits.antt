-- ===== src/Scheduler/Limits.antt =====
-- How many requests run at once.
use mathlib.Core.List.{reverse}
use vllm_cpp.Prelude.{
  ℕ, ◌+◌, ◌≤◌, ◌<◌, ◌≡◌, refl, not, ◌&&◌, some, List, [], ◌∷◌, ◌++◌, Bool-cases, Option-cases, inl,
  inr, ltb, arith, length, length-append,
}
use vllm_cpp.Prelude.Assoc.{find?}
use vllm_cpp.Config.{KvDtype}
use vllm_cpp.KvCache.Pool.{BlockPool, free_count}
use vllm_cpp.KvCache.Manager.Ownership.{IsExclusive, alloc_blocks-Takes}
use vllm_cpp.KvCache.Manager.{free_blocks_count}
use vllm_cpp.Request.{Request, RequestState, waiting, running, finished, preempted, get_num_blocks}
use vllm_cpp.Scheduler.State.{
  Scheduler, new_scheduler, Outcome, can_allocate, allocate_request, restore_request, is_empty,
}
use vllm_cpp.Scheduler.Admit.{
  Admission, Preemption, defer, settle, attempt, admit, admit_by_state, readmit, write_back,
  for_each, admission_loop, evict, preempt_one, preempt_loop, requeue, preempt_requests, phase_one,
  phase_two, total_needed, remove_id,
}
use vllm_cpp.Scheduler.Batch.{Retiring, retire, retire_one, retire_loop, phase_four, schedule}
use vllm_cpp.Scheduler.Calls.{
  submit_request, remove_request, drop_request, report_one, report_output, SchedulerCall,
  call_submit, call_remove, call_schedule, call_report, call, calls,
}

-- At most one request too many runs, and the limit is `limit`.
pub record IsWithin (limit : ℕ) (s : Scheduler) : Type 0 where
  pub limited : length s.running_ids ≤ s.max_num_seqs + 1
  pub same_limit : s.max_num_seqs ≡ limit

length-snoc : (xs : List ℕ) (x : ℕ) → length (xs ++ x ∷ []) ≡ length xs + 1
length-snoc xs x = omega (arith, length-append xs (x ∷ []))

attempt-IsWithin :
    (limit : ℕ) (f : Request → BlockPool → Outcome) (rid : ℕ) (req : Request) (a : Admission)
    → IsWithin limit a.sched
    → IsWithin limit (attempt f rid req a).sched
unfolding attempt settle write_back defer can_allocate
attempt-IsWithin limit f rid req a w = ground (arith, length-snoc a.sched.running_ids rid)

admit_by_state-IsWithin :
    (limit : ℕ) (rid : ℕ) (req : Request) (st : RequestState) (a : Admission)
    → IsWithin limit a.sched
    → IsWithin limit (admit_by_state rid req st a).sched
unfolding admit_by_state defer
admit_by_state-IsWithin limit rid req waiting a w =
    attempt-IsWithin limit allocate_request rid req a w
admit_by_state-IsWithin limit rid req running a w = w
admit_by_state-IsWithin limit rid req finished a w = w
admit_by_state-IsWithin limit rid req preempted a w =
    attempt-IsWithin limit restore_request rid req a w

admit-IsWithin :
    (limit rid : ℕ) (a : Admission) → IsWithin limit a.sched → IsWithin limit (admit rid a).sched
unfolding admit
admit-IsWithin limit rid a w = elim (Option-cases (find? rid a.sched.requests)) [
  | inl e ↦ rw (e, admit) w
  | inr (req, e) ↦ rw (e, admit) (admit_by_state-IsWithin limit rid req req.state a w)
]

readmit-IsWithin :
    (limit rid : ℕ) (a : Admission) → IsWithin limit a.sched → IsWithin limit (readmit rid a).sched
unfolding readmit
readmit-IsWithin limit rid a w = elim (Option-cases (find? rid a.sched.requests)) [
  | inl e ↦ rw (e, readmit) w
  | inr (req, e) ↦ rw (e, readmit) (attempt-IsWithin limit allocate_request rid req a w)
]

for_each-IsWithin :
    (limit : ℕ) (body : ℕ → Admission → Admission)
    → ((rid : ℕ) (a : Admission) → IsWithin limit a.sched → IsWithin limit (body rid a).sched)
    → (rids : List ℕ) (a : Admission) → IsWithin limit a.sched
    → IsWithin limit (for_each body rids a).sched
unfolding for_each
for_each-IsWithin limit body keep [] a w = w
for_each-IsWithin limit body keep (rid ∷ rids) a w =
    for_each-IsWithin limit body keep rids (body rid a) (keep rid a w)

admission_loop-IsWithin :
    (limit : ℕ) (body : ℕ → Admission → Admission)
    → ((rid : ℕ) (a : Admission) → IsWithin limit a.sched → IsWithin limit (body rid a).sched)
    → (newly : List ℕ) (s : Scheduler) → IsWithin limit s
    → IsWithin limit (admission_loop body newly s).sched
unfolding admission_loop
admission_loop-IsWithin limit body keep newly s w =
    let h =
      for_each-IsWithin limit body keep s.waiting_ids
        (record { sched = s; newly = newly; next = [] }) w in
    record { limited = h.limited; same_limit = h.same_limit }

preempt_one-IsWithin :
    (limit needed rid : ℕ) (v : Preemption)
    → IsWithin limit v.sched
    → IsWithin limit (preempt_one needed rid v).sched
unfolding preempt_one evict write_back
preempt_one-IsWithin limit needed rid v w = ground arith

preempt_loop-IsWithin :
    (limit needed : ℕ) (rids : List ℕ) (v : Preemption)
    → IsWithin limit v.sched
    → IsWithin limit (preempt_loop needed rids v).sched
unfolding preempt_loop
preempt_loop-IsWithin limit needed [] v w = w
preempt_loop-IsWithin limit needed (rid ∷ rids) v w =
    preempt_loop-IsWithin limit needed rids (preempt_one needed rid v)
      (preempt_one-IsWithin limit needed rid v w)

length-remove_id : (rid : ℕ) (xs : List ℕ) → length (remove_id rid xs) ≤ length xs
unfolding remove_id
length-remove_id rid [] = omega arith
length-remove_id rid (x ∷ xs) = ground (arith, length-remove_id rid xs)

requeue-IsWithin :
    (limit : ℕ) (rids : List ℕ) (s : Scheduler) → IsWithin limit s → IsWithin limit (requeue rids s)
unfolding requeue
requeue-IsWithin limit [] s w = w
requeue-IsWithin limit (rid ∷ rids) s w = requeue-IsWithin limit rids _ (record {
  limited = omega (arith, length-remove_id rid s.running_ids, w.limited);
  same_limit = w.same_limit;
})

phase_two-IsWithin :
    (limit : ℕ) (a : Admission) → IsWithin limit a.sched → IsWithin limit (phase_two a).sched
unfolding phase_two preempt_requests
phase_two-IsWithin limit a w =
    let needed = total_needed a.sched.requests a.sched.waiting_ids in
    elim (Bool-cases (ltb 0 needed && not (is_empty a.sched.waiting_ids))) [
      | inl e ↦
          rw (e, phase_two)
            (admission_loop-IsWithin limit readmit (readmit-IsWithin limit) a.newly _ (
              requeue-IsWithin limit _ _
                (preempt_loop-IsWithin limit needed (reverse a.sched.running_ids) _ w)))
      | inr e ↦ rw (e, phase_two) w
    ]

-- Phase 4 keeps the limit and lengthens nothing.
record Shrinks (limit bound : ℕ) (r : Retiring) : Type 0 where
  same_limit : r.sched.max_num_seqs ≡ limit
  shorter : length r.next_running ≤ bound

retire_one-Shrinks :
    (limit bound rid : ℕ) (r : Retiring)
    → Shrinks limit bound r
    → Shrinks limit (bound + 1) (retire_one rid r)
unfolding retire_one retire write_back
retire_one-Shrinks limit bound rid r w = ground (arith, length-snoc r.next_running rid)

retire_loop-Shrinks :
    (limit bound : ℕ) (rids : List ℕ) (r : Retiring)
    → Shrinks limit bound r
    → Shrinks limit (bound + length rids) (retire_loop rids r)
unfolding retire_loop
retire_loop-Shrinks limit bound [] r w = record {
  same_limit = w.same_limit;
  shorter = omega (arith, w.shorter);
}
retire_loop-Shrinks limit bound (rid ∷ rids) r w =
    let h =
      retire_loop-Shrinks limit (bound + 1) rids (retire_one rid r)
        (retire_one-Shrinks limit bound rid r w) in
    record { same_limit = h.same_limit; shorter = omega (arith, h.shorter) }

phase_four-IsWithin :
    (limit : ℕ) (s : Scheduler) → IsWithin limit s → IsWithin limit (phase_four s).sched
unfolding phase_four
phase_four-IsWithin limit s w =
    let h =
      retire_loop-Shrinks limit 0 s.running_ids
        (record { sched = s; next_running = []; reported = [] })
        (record { same_limit = w.same_limit; shorter = omega arith }) in
    record {
      limited = omega (arith, h.shorter, w.limited, h.same_limit, w.same_limit);
      same_limit = h.same_limit;
    }

schedule-IsWithin : (limit : ℕ) (s : Scheduler) → IsWithin limit s → IsWithin limit (schedule s).0
unfolding schedule phase_one
schedule-IsWithin limit s w =
    phase_four-IsWithin limit _ (
      phase_two-IsWithin limit _
        (admission_loop-IsWithin limit admit (admit-IsWithin limit) [] s w))

report_output-IsWithin :
    (limit : ℕ) (rids : List ℕ) (lists : List (List ℕ)) (s : Scheduler)
    → IsWithin limit s
    → IsWithin limit (report_output rids lists s)
unfolding report_output write_back
report_output-IsWithin limit [] lists s w = w
report_output-IsWithin limit (rid ∷ rids) [] s w = w
report_output-IsWithin limit (rid ∷ rids) (tokens ∷ lists) s w =
    report_output-IsWithin limit rids lists (report_one rid tokens s) (one w)
  where
    one : IsWithin limit s → IsWithin limit (report_one rid tokens s)
    one w' = elim (Option-cases (find? rid s.requests)) [
      | inl e ↦ rw (e, report_one) w'
      | inr (req, e) ↦
          rw (e, report_one) (record { limited = w'.limited; same_limit = w'.same_limit })
    ]

call-IsWithin :
    (limit : ℕ) (c : SchedulerCall) (s : Scheduler) → IsWithin limit s → IsWithin limit (call c s)
unfolding call submit_request remove_request drop_request
call-IsWithin limit (call_submit prompt tokens n t p) s w = record {
  limited = w.limited;
  same_limit = w.same_limit;
}
call-IsWithin limit (call_remove rid) s w = ground (arith, length-remove_id rid s.running_ids)
call-IsWithin limit call_schedule s w = schedule-IsWithin limit s w
call-IsWithin limit (call_report rids lists) s w = report_output-IsWithin limit rids lists s w

calls-IsWithin :
    (limit : ℕ) (cs : List SchedulerCall) (s : Scheduler)
    → IsWithin limit s
    → IsWithin limit (calls cs s)
unfolding calls
calls-IsWithin limit [] s w = w
calls-IsWithin limit (c ∷ cs) s w = calls-IsWithin limit cs (call c s) (call-IsWithin limit c s w)

-- After any history of calls on a new scheduler at most `max_num_seqs + 1` requests run.
pub calls-length-running :
    (n t l d g c : ℕ) (dtype : KvDtype) (cs : List SchedulerCall)
    → length (calls cs (new_scheduler n t l d g c dtype)).running_ids ≤ n + 1
unfolding new_scheduler
calls-length-running n t l d g c dtype cs =
    let w =
      calls-IsWithin n cs (new_scheduler n t l d g c dtype)
        (record { limited = omega arith; same_limit = refl }) in
    omega (arith, w.limited, w.same_limit)

-- The request too many: admission control counts a preempted request as if it were running
-- already, so the retry admits it into a full batch whenever its blocks fit.
pub readmit_over_limit :
    (rid : ℕ) (req : Request) (a : Admission)
    → find? rid a.sched.requests ≡ some req
    → req.state ≡ preempted
    → 0 < get_num_blocks req
    → get_num_blocks req ≤ free_count a.sched.pool
    → IsExclusive a.sched.pool
    → length a.sched.running_ids ≡ a.sched.max_num_seqs
    → length (readmit rid a).sched.running_ids ≡ (readmit rid a).sched.max_num_seqs + 1
unfolding readmit attempt settle write_back can_allocate free_blocks_count allocate_request
readmit_over_limit rid req a at gone some_needed fits x full =
    let t = alloc_blocks-Takes (get_num_blocks req) a.sched.pool x in
    let d = t.enough fits in rw (at, readmit) (ground (arith, length-snoc a.sched.running_ids rid))
