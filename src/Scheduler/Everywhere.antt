-- ===== src/Scheduler/Everywhere.antt =====
-- A predicate of single requests that every step of the scheduler keeps holds of all requests in
-- every state that a history of calls reaches.
use mathlib.Core.List.{reverse}
use Prim.Native.String.{String}
use vllm_cpp.Prelude.{ℕ, not, ◌&&◌, List, [], ◌∷◌, Bool-cases, Option-cases, inl, inr, ltb}
use vllm_cpp.Prelude.Assoc.{find?, AllValues, AllValues-insert, AllValues-erase, AllValues-find?}
use vllm_cpp.KvCache.Pool.{BlockPool}
use vllm_cpp.Request.{Request, RequestState, waiting, running, finished, preempted}
use vllm_cpp.Scheduler.State.{
  Scheduler, Outcome, can_allocate, allocate_request, restore_request, is_running, is_empty,
}
use vllm_cpp.Scheduler.Admit.{
  Admission, Preemption, defer, settle, attempt, admit, admit_by_state, readmit, write_back,
  for_each, admission_loop, evict, preempt_one, preempt_loop, requeue, preempt_requests, phase_one,
  phase_two, total_needed,
}
use vllm_cpp.Scheduler.Batch.{
  Retiring, is_over, retire, retire_one, retire_loop, phase_four, schedule,
}
use vllm_cpp.Scheduler.Calls.{
  new_request, submit_request, remove_request, drop_request, take_tokens, grow_table, report_one,
  report_output, SchedulerCall, call_submit, call_remove, call_schedule, call_report, call, calls,
}
use vllm_cpp.Scheduler.Ownership.Eviction.{gone_request, evict_lem}
use vllm_cpp.Scheduler.Ownership.Retirement.{retired, retire_lem}

-- What a predicate must survive.
pub record IsStable (P : Request → Type 0) : Type 0 where
  pub submitted :
      (id : ℕ) (prompt : String) (tokens : List ℕ) (n t p : ℕ)
      → P (new_request id prompt tokens n t p)
  pub allocated : (req : Request) (p : BlockPool) → P req → P (allocate_request req p).request
  pub restored : (req : Request) (p : BlockPool) → P req → P (restore_request req p).request
  pub evicted : (req : Request) → P req → P (gone_request req)
  pub ended : (req : Request) → P req → P (retired req)
  pub reported :
      (req : Request) (tokens : List ℕ) (p : BlockPool)
      → P req
      → P (grow_table (take_tokens tokens req) p).0

module _ (P : Request → Type 0) (stable : IsStable P) where
  abbrev pub Everywhere : Scheduler → Type 0
  Everywhere s = AllValues P s.requests

  attempt-Everywhere :
      (f : Request → BlockPool → Outcome)
      → ((req : Request) (p : BlockPool) → P req → P (f req p).request)
      → (rid : ℕ) (req : Request) (a : Admission) → P req
      → Everywhere a.sched
      → Everywhere (attempt f rid req a).sched
  unfolding attempt settle write_back defer
  attempt-Everywhere f keep rid req a h w =
      let o = f req a.sched.pool in
      let w' = AllValues-insert P rid o.request a.sched.requests (keep req a.sched.pool h) w in
      elim (Bool-cases (can_allocate a.sched req)) [
        | inl e ↦ elim (Bool-cases o.done) [
          | inl d ↦ rw (e, d, attempt, settle) w'
          | inr d ↦ rw (e, d, attempt, settle) w'
        ]
        | inr e ↦ rw (e, attempt) w
      ]

  admit_by_state-Everywhere :
      (rid : ℕ) (req : Request) (st : RequestState) (a : Admission)
      → P req
      → Everywhere a.sched
      → Everywhere (admit_by_state rid req st a).sched
  unfolding admit_by_state defer
  admit_by_state-Everywhere rid req waiting a h w =
      attempt-Everywhere allocate_request stable.allocated rid req a h w
  admit_by_state-Everywhere rid req running a h w = w
  admit_by_state-Everywhere rid req finished a h w = w
  admit_by_state-Everywhere rid req preempted a h w =
      attempt-Everywhere restore_request stable.restored rid req a h w

  admit-Everywhere : (rid : ℕ) (a : Admission) → Everywhere a.sched → Everywhere (admit rid a).sched
  unfolding admit
  admit-Everywhere rid a w = elim (Option-cases (find? rid a.sched.requests)) [
    | inl e ↦ rw (e, admit) w
    | inr (req, e) ↦
        rw (e, admit)
          (admit_by_state-Everywhere rid req req.state a (AllValues-find? P rid _ w e) w)
  ]

  readmit-Everywhere :
      (rid : ℕ) (a : Admission) → Everywhere a.sched → Everywhere (readmit rid a).sched
  unfolding readmit
  readmit-Everywhere rid a w = elim (Option-cases (find? rid a.sched.requests)) [
    | inl e ↦ rw (e, readmit) w
    | inr (req, e) ↦
        rw (e, readmit)
          (attempt-Everywhere allocate_request stable.allocated rid req a
            (AllValues-find? P rid _ w e) w)
  ]

  admission_loop-Everywhere :
      (body : ℕ → Admission → Admission)
      → ((rid : ℕ) (a : Admission) → Everywhere a.sched → Everywhere (body rid a).sched)
      → (newly : List ℕ) (s : Scheduler) → Everywhere s
      → Everywhere (admission_loop body newly s).sched
  unfolding admission_loop for_each
  admission_loop-Everywhere body keep newly s w = go s.waiting_ids _ w
    where
      go :
          (rids : List ℕ) (a : Admission)
          → Everywhere a.sched
          → Everywhere (for_each body rids a).sched
      go [] a h = h
      go (rid ∷ rids) a h = go rids (body rid a) (keep rid a h)

  evict-Everywhere :
      (rid : ℕ) (req : Request) (v : Preemption)
      → P req
      → Everywhere v.sched
      → Everywhere (evict rid req v).sched
  unfolding write_back
  evict-Everywhere rid req v h w =
      rw (evict_lem rid req v)
        (AllValues-insert P rid (gone_request req) v.sched.requests (stable.evicted req h) w)

  preempt_one-Everywhere :
      (needed rid : ℕ) (v : Preemption)
      → Everywhere v.sched
      → Everywhere (preempt_one needed rid v).sched
  unfolding preempt_one
  preempt_one-Everywhere needed rid v w = elim (Bool-cases (ltb v.freed needed)) [
    | inr over ↦ rw (over, preempt_one) w
    | inl more ↦ elim (Option-cases (find? rid v.sched.requests)) [
      | inl e ↦ rw (more, e, preempt_one) w
      | inr (req, e) ↦ elim (Bool-cases (is_running req.state)) [
        | inl active ↦
            rw (more, e, active, preempt_one)
              (evict-Everywhere rid req v (AllValues-find? P rid _ w e) w)
        | inr other ↦ rw (more, e, other, preempt_one) w
      ]
    ]
  ]

  preempt_loop-Everywhere :
      (needed : ℕ) (rids : List ℕ) (v : Preemption)
      → Everywhere v.sched
      → Everywhere (preempt_loop needed rids v).sched
  unfolding preempt_loop
  preempt_loop-Everywhere needed [] v w = w
  preempt_loop-Everywhere needed (rid ∷ rids) v w =
      preempt_loop-Everywhere needed rids (preempt_one needed rid v)
        (preempt_one-Everywhere needed rid v w)

  requeue-Everywhere : (rids : List ℕ) (s : Scheduler) → Everywhere s → Everywhere (requeue rids s)
  unfolding requeue
  requeue-Everywhere [] s w = w
  requeue-Everywhere (rid ∷ rids) s w = requeue-Everywhere rids _ w

  phase_two-Everywhere : (a : Admission) → Everywhere a.sched → Everywhere (phase_two a).sched
  unfolding phase_two preempt_requests
  phase_two-Everywhere a w =
      let needed = total_needed a.sched.requests a.sched.waiting_ids in
      elim (Bool-cases (ltb 0 needed && not (is_empty a.sched.waiting_ids))) [
        | inl e ↦
            rw (e, phase_two)
              (admission_loop-Everywhere readmit readmit-Everywhere a.newly _ (
                requeue-Everywhere _ _
                  (preempt_loop-Everywhere needed (reverse a.sched.running_ids) _ w)))
        | inr e ↦ rw (e, phase_two) w
      ]

  retire-Everywhere :
      (rid : ℕ) (req : Request) (r : Retiring)
      → P req
      → Everywhere r.sched
      → Everywhere (retire rid req r).sched
  unfolding write_back
  retire-Everywhere rid req r h w =
      rw (retire_lem rid req r)
        (AllValues-insert P rid (retired req) r.sched.requests (stable.ended req h) w)

  retire_one-Everywhere :
      (rid : ℕ) (r : Retiring) → Everywhere r.sched → Everywhere (retire_one rid r).sched
  unfolding retire_one
  retire_one-Everywhere rid r w = elim (Option-cases (find? rid r.sched.requests)) [
    | inl e ↦ rw (e, retire_one) w
    | inr (req, e) ↦ elim (Bool-cases (is_over req)) [
      | inl over ↦
          rw (e, over, retire_one) (retire-Everywhere rid req r (AllValues-find? P rid _ w e) w)
      | inr on ↦ rw (e, on, retire_one) w
    ]
  ]

  retire_loop-Everywhere :
      (rids : List ℕ) (r : Retiring) → Everywhere r.sched → Everywhere (retire_loop rids r).sched
  unfolding retire_loop
  retire_loop-Everywhere [] r w = w
  retire_loop-Everywhere (rid ∷ rids) r w =
      retire_loop-Everywhere rids (retire_one rid r) (retire_one-Everywhere rid r w)

  schedule-Everywhere : (s : Scheduler) → Everywhere s → Everywhere (schedule s).0
  unfolding schedule phase_one phase_four
  schedule-Everywhere s w =
      retire_loop-Everywhere _ _
        (phase_two-Everywhere _ (admission_loop-Everywhere admit admit-Everywhere [] s w))

  report_one-Everywhere :
      (rid : ℕ) (tokens : List ℕ) (s : Scheduler)
      → Everywhere s
      → Everywhere (report_one rid tokens s)
  unfolding report_one write_back
  report_one-Everywhere rid tokens s w = elim (Option-cases (find? rid s.requests)) [
    | inl e ↦ rw (e, report_one) w
    | inr (req, e) ↦
        rw (e, report_one)
          (AllValues-insert P rid _ s.requests
            (stable.reported req tokens s.pool (AllValues-find? P rid _ w e)) w)
  ]

  report_output-Everywhere :
      (rids : List ℕ) (lists : List (List ℕ)) (s : Scheduler)
      → Everywhere s
      → Everywhere (report_output rids lists s)
  unfolding report_output
  report_output-Everywhere [] lists s w = w
  report_output-Everywhere (rid ∷ rids) [] s w = w
  report_output-Everywhere (rid ∷ rids) (tokens ∷ lists) s w =
      report_output-Everywhere rids lists (report_one rid tokens s)
        (report_one-Everywhere rid tokens s w)

  remove_request-Everywhere :
      (rid : ℕ) (s : Scheduler) → Everywhere s → Everywhere (remove_request rid s)
  unfolding remove_request drop_request
  remove_request-Everywhere rid s w = elim (Option-cases (find? rid s.requests)) [
    | inl e ↦ rw (e, remove_request) w
    | inr (req, e) ↦ rw (e, remove_request) (AllValues-erase P rid s.requests w)
  ]

  call-Everywhere : (c : SchedulerCall) (s : Scheduler) → Everywhere s → Everywhere (call c s)
  unfolding call submit_request
  call-Everywhere (call_submit prompt tokens n t p) s w =
      AllValues-insert P _ _ s.requests (stable.submitted _ prompt tokens n t p) w
  call-Everywhere (call_remove rid) s w = remove_request-Everywhere rid s w
  call-Everywhere call_schedule s w = schedule-Everywhere s w
  call-Everywhere (call_report rids lists) s w = report_output-Everywhere rids lists s w

  pub calls-Everywhere :
      (cs : List SchedulerCall) (s : Scheduler) → Everywhere s → Everywhere (calls cs s)
  unfolding calls
  calls-Everywhere [] s w = w
  calls-Everywhere (c ∷ cs) s w = calls-Everywhere cs (call c s) (call-Everywhere c s w)
