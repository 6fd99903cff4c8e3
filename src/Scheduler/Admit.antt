-- ===== src/Scheduler/Admit.antt =====
-- The loops of `Scheduler::schedule` that admit requests: its phases 1 and 2.
use vllm_cpp.Prelude.{
  ℕ, ◌+◌, ◌==◌, ltb, if◌then◌else◌, not, ◌&&◌, Option, none, some, List, [], ◌∷◌, ◌++◌,
}
use mathlib.Core.List.{reverse}
use vllm_cpp.Prelude.Assoc.{find?, insert}
use vllm_cpp.KvCache.Pool.{BlockPool}
use vllm_cpp.Request.{Request, RequestState, waiting, preempted, get_num_blocks}
use vllm_cpp.Scheduler.State.{
  Scheduler, Outcome, can_allocate, allocate_request, restore_request, checkpoint_request,
  free_request_blocks, is_empty, is_running,
}

-- The scheduler with the loop's locals `newly_admitted` and `next_waiting`.
pub record Admission : Type 0 where
  pub sched : Scheduler
  pub newly : List ℕ
  pub next : List ℕ

unfoldable pub defer : ℕ → Admission → Admission
defer rid a = record a { next = a.next ++ rid ∷ [] }

-- What a call on the request `rid` left is written back through the reference.
unfoldable pub write_back : ℕ → Request → BlockPool → Scheduler → Scheduler
write_back rid req p s = record s { requests = insert rid req s.requests; pool = p }

unfoldable pub settle : ℕ → Outcome → Admission → Admission
unfolding write_back defer
settle rid o a =
    let s = write_back rid o.request o.pool a.sched in
    if o.done
    then record a {
      sched = record s { running_ids = s.running_ids ++ rid ∷ [] };
      newly = a.newly ++ rid ∷ [];
    }
    else defer rid (record a { sched = s })

unfoldable pub attempt : (Request → BlockPool → Outcome) → ℕ → Request → Admission → Admission
unfolding settle
attempt f rid req a =
    if can_allocate a.sched req then settle rid (f req a.sched.pool) a else defer rid a

-- One round of phase 1.
unfoldable pub admit_by_state : ℕ → Request → RequestState → Admission → Admission
unfolding attempt
admit_by_state rid req preempted a = attempt restore_request rid req a
admit_by_state rid req waiting a = attempt allocate_request rid req a
admit_by_state rid req _ a = defer rid a

unfoldable pub admit : ℕ → Admission → Admission
unfolding admit_by_state
admit rid a = elim (find? rid a.sched.requests) [
  | none ↦ a
  | some req ↦ admit_by_state rid req req.state a
]

-- One round of the retry in phase 2, whatever the request's state.
unfoldable pub readmit : ℕ → Admission → Admission
unfolding attempt
readmit rid a = elim (find? rid a.sched.requests) [
  | none ↦ a
  | some req ↦ attempt allocate_request rid req a
]

unfoldable pub for_each : (ℕ → Admission → Admission) → List ℕ → Admission → Admission
for_each body [] a = a
for_each body (rid ∷ rids) a = for_each body rids (body rid a)

-- A whole loop over the waiting queue, which is replaced at its end.
unfoldable pub admission_loop : (ℕ → Admission → Admission) → List ℕ → Scheduler → Admission
admission_loop body newly s =
    let a = for_each body s.waiting_ids (record { sched = s; newly = newly; next = [] }) in
    record a { sched = record a.sched { waiting_ids = a.next } }

-- The blocks that the waiting requests want.
unfoldable pub needed_of : Option Request → ℕ
needed_of none = 0
needed_of (some req) = get_num_blocks req

unfoldable pub total_needed : List (ℕ × Request) → List ℕ → ℕ
unfolding needed_of
total_needed m [] = 0
total_needed m (rid ∷ rids) = needed_of (find? rid m) + total_needed m rids

-- The locals `freed` and `to_preempt` of `preempt_requests`.
pub record Preemption : Type 0 where
  pub sched : Scheduler
  pub freed : ℕ
  pub victims : List ℕ

unfoldable pub evict : ℕ → Request → Preemption → Preemption
unfolding write_back
evict rid req v =
    let (req', p') = free_request_blocks (checkpoint_request req) v.sched.pool in
    let gone = record req' { state = preempted; preempt_count = req'.preempt_count + 1 } in
    record {
      sched = write_back rid gone p' v.sched;
      freed = v.freed + get_num_blocks gone;
      victims = v.victims ++ rid ∷ [];
    }

-- One round; past the wanted number of blocks the loop has ended, and a round changes nothing.
unfoldable pub preempt_one : ℕ → ℕ → Preemption → Preemption
unfolding evict
preempt_one needed rid v =
    if ltb v.freed needed
    then elim (find? rid v.sched.requests) [
      | none ↦ v
      | some req ↦ if is_running req.state then evict rid req v else v
    ]
    else v

unfoldable pub preempt_loop : ℕ → List ℕ → Preemption → Preemption
preempt_loop needed [] v = v
preempt_loop needed (rid ∷ rids) v = preempt_loop needed rids (preempt_one needed rid v)

-- `erase(remove(…))`: every occurrence goes.
unfoldable pub remove_id : ℕ → List ℕ → List ℕ
remove_id rid [] = []
remove_id rid (x ∷ xs) = if x == rid then remove_id rid xs else x ∷ remove_id rid xs

unfoldable pub requeue : List ℕ → Scheduler → Scheduler
requeue [] s = s
requeue (rid ∷ rids) s =
    requeue rids
      (record s { running_ids = remove_id rid s.running_ids; waiting_ids = rid ∷ s.waiting_ids })

unfoldable pub preempt_requests : ℕ → Scheduler → Scheduler
preempt_requests needed s =
    let v =
      preempt_loop needed (reverse s.running_ids) (record { sched = s; freed = 0; victims = [] }) in
    requeue v.victims v.sched

unfoldable pub phase_one : Scheduler → Admission
phase_one s = admission_loop admit [] s

unfoldable pub phase_two : Admission → Admission
phase_two a =
    let needed = total_needed a.sched.requests a.sched.waiting_ids in
    if ltb 0 needed && not (is_empty a.sched.waiting_ids)
    then admission_loop readmit a.newly (preempt_requests needed a.sched)
    else a
