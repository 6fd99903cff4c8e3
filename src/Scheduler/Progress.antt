-- ===== src/Scheduler/Progress.antt =====
-- The request at the head of the queue in the phase 1 of `Scheduler::schedule`.
use vllm_cpp.Prelude.{
  ℕ, ◌+◌, ◌==◌, ◌≤◌, ◌<◌, ◌≡◌, refl, ap, ◌∙◌, true, false, some, List, [], ◌∷◌, ℤ, Option-cases,
  Bool-cases, inl, inr, arith, length,
}
use vllm_cpp.Prelude.Assoc.{find?, find?-insert}
use vllm_cpp.Prelude.Occurs.{occurs, occurs-snoc, occurs-cons}
use vllm_cpp.KvCache.Pool.{BlockPool, free_count}
use vllm_cpp.KvCache.Manager.{free_blocks_count, alloc_blocks}
use vllm_cpp.KvCache.Manager.Ownership.{IsExclusive, alloc_blocks-Takes}
use vllm_cpp.Request.{Request, RequestState, waiting, running, finished, preempted, get_num_blocks}
use vllm_cpp.Scheduler.State.{Scheduler, Outcome, can_allocate, allocate_request, restore_request}
use vllm_cpp.Scheduler.Admit.{
  Admission, defer, settle, attempt, admit, admit_by_state, write_back, for_each, admission_loop,
  phase_one,
}
use vllm_cpp.Scheduler.Ownership.Books.{Invariant}

-- What the rounds of other requests do to `rid`.
record Untouched (rid : ℕ) (a a' : Admission) : Type 0 where
  stored : find? rid a'.sched.requests ≡ find? rid a.sched.requests
  same_running : occurs rid a'.sched.running_ids ≡ occurs rid a.sched.running_ids
  same_newly : occurs rid a'.newly ≡ occurs rid a.newly
  same_next : occurs rid a'.next ≡ occurs rid a.next

Untouched-refl : (rid : ℕ) (a : Admission) → Untouched rid a a
Untouched-refl rid a = record {
  stored = refl;
  same_running = refl;
  same_newly = refl;
  same_next = refl;
}

module _ (rid other : ℕ) (apart : (other == rid) ≡ false) where
  defer-Untouched : (a : Admission) → Untouched rid a (defer other a)
  unfolding defer
  defer-Untouched a = record {
    stored = refl;
    same_running = refl;
    same_newly = refl;
    same_next = rw (occurs-snoc rid other a.next) (ground arith);
  }

  attempt-Untouched :
      (f : Request → BlockPool → Outcome) (req : Request) (a : Admission)
      → Untouched rid a (attempt f other req a)
  unfolding attempt settle write_back
  attempt-Untouched f req a =
      let o = f req a.sched.pool in
      let put = find?-insert other rid o.request a.sched.requests in
      elim (Bool-cases (can_allocate a.sched req)) [
        | inr e ↦ rw (e, attempt) (defer-Untouched a)
        | inl e ↦ elim (Bool-cases o.done) [
          | inl d ↦
              rw (e, attempt)
                (rw (d, settle)
                  (record {
                    stored = ground (arith, put);
                    same_running = ground (arith, occurs-snoc rid other a.sched.running_ids);
                    same_newly = ground (arith, occurs-snoc rid other a.newly);
                    same_next = refl;
                  }))
          | inr d ↦
              rw (e, attempt)
                (rw (d, settle)
                  (unfold defer in
                    record {
                      stored = ground (arith, put);
                      same_running = refl;
                      same_newly = refl;
                      same_next = ground (arith, occurs-snoc rid other a.next);
                    }))
        ]
      ]

  admit_by_state-Untouched :
      (req : Request) (st : RequestState) (a : Admission)
      → Untouched rid a (admit_by_state other req st a)
  unfolding admit_by_state
  admit_by_state-Untouched req waiting a = attempt-Untouched allocate_request req a
  admit_by_state-Untouched req running a = defer-Untouched a
  admit_by_state-Untouched req finished a = defer-Untouched a
  admit_by_state-Untouched req preempted a = attempt-Untouched restore_request req a

  admit-Untouched : (a : Admission) → Untouched rid a (admit other a)
  unfolding admit
  admit-Untouched a = elim (Option-cases (find? other a.sched.requests)) [
    | inl e ↦ rw (e, admit) (Untouched-refl rid a)
    | inr (req, e) ↦ rw (e, admit) (admit_by_state-Untouched req req.state a)
  ]

for_each-Untouched :
    (rid : ℕ) (rids : List ℕ) (a : Admission)
    → occurs rid rids ≡ 0
    → Untouched rid a (for_each admit rids a)
unfolding for_each
for_each-Untouched rid [] a h = Untouched-refl rid a
for_each-Untouched rid (other ∷ rids) a h =
    let apart : (other == rid) ≡ false = ground (arith, occurs-cons rid other rids) in
    let one = admit-Untouched rid other apart a in
    let more =
      for_each-Untouched rid rids (admit other a) (ground (arith, occurs-cons rid other rids)) in
    record {
      stored = more.stored ∙ one.stored;
      same_running = more.same_running ∙ one.same_running;
      same_newly = more.same_newly ∙ one.same_newly;
      same_next = more.same_next ∙ one.same_next;
    }

-- The blocks and the state that allocate_request gives a request with tokens.
allocate_request-fits :
    (req : Request) (p : BlockPool)
    → IsExclusive p
    → 0 < get_num_blocks req
    → get_num_blocks req ≤ free_count p
    → let o = allocate_request req p in
      let table = (alloc_blocks (get_num_blocks req) p).out in
      (o.done ≡ true)
      × (o.request ≡ record req { block_table = table; state = running })
      × (length table ≡ get_num_blocks req)
unfolding allocate_request
allocate_request-fits req p x some_needed fits =
    let t = alloc_blocks-Takes (get_num_blocks req) p x in
    let d = t.enough fits in
    let e : (get_num_blocks req == 0) ≡ false = ground arith in
    rw (e, allocate_request) (rw (d, allocate_request) (refl, refl, omega (arith, t.full d)))

-- The request `rid`, which was `req`, has its blocks and runs, and was admitted in this phase.
pub record Started (rid : ℕ) (req : Request) (a : Admission) : Type 0 where
  pub table : List ℤ
  pub length_table : length table ≡ get_num_blocks req
  pub stored :
      find? rid a.sched.requests ≡ some (record req { block_table = table; state = running })
  pub once_running : occurs rid a.sched.running_ids ≡ 1
  pub once_newly : occurs rid a.newly ≡ 1
  pub not_waiting : occurs rid a.sched.waiting_ids ≡ 0

-- The head's own round, and the rounds behind it.
module _ (rid : ℕ) (req : Request) (a : Admission) (at : find? rid a.sched.requests ≡ some req)
    (st : req.state ≡ waiting) (can : can_allocate a.sched req ≡ true)
    (x : IsExclusive a.sched.pool) (some_needed : 0 < get_num_blocks req) where
  abbrev new_table : List ℤ
  new_table = (alloc_blocks (get_num_blocks req) a.sched.pool).out

  fits : get_num_blocks req ≤ free_count a.sched.pool
  unfolding can_allocate free_blocks_count
  fits = ground arith

  admit_head :
      (find? rid (admit rid a).sched.requests
        ≡ some (record req { block_table = new_table; state = running }))
      × (occurs rid (admit rid a).sched.running_ids ≡ occurs rid a.sched.running_ids + 1)
      × (occurs rid (admit rid a).newly ≡ occurs rid a.newly + 1)
      × (occurs rid (admit rid a).next ≡ occurs rid a.next)
  unfolding admit admit_by_state attempt settle write_back get_num_blocks
  admit_head =
      let o = allocate_request-fits req a.sched.pool x some_needed fits in
      rw (at, admit)
        (rw (st, admit_by_state)
          (rw (can, attempt)
            (rw (o.0, settle)
              (
                ground (
                  arith,
                  find?-insert rid rid (allocate_request req a.sched.pool).request a.sched.requests,
                )
                    ∙ ap some o.1,
                ground (arith, occurs-snoc rid rid a.sched.running_ids),
                ground (arith, occurs-snoc rid rid a.newly),
                refl,
              ))))

  for_each-head :
      (rest rids : List ℕ)
      → rids ≡ rid ∷ rest
      → occurs rid rest ≡ 0
      → (find? rid (for_each admit rids a).sched.requests
          ≡ some (record req { block_table = new_table; state = running }))
        × (occurs rid (for_each admit rids a).sched.running_ids
            ≡ occurs rid a.sched.running_ids + 1)
        × (occurs rid (for_each admit rids a).newly ≡ occurs rid a.newly + 1)
        × (occurs rid (for_each admit rids a).next ≡ occurs rid a.next)
  unfolding for_each
  for_each-head rest rids q once =
      let h = admit_head in
      let u = for_each-Untouched rid rest (admit rid a) once in
      rw q (u.stored ∙ h.0, u.same_running ∙ h.1, u.same_newly ∙ h.2, u.same_next ∙ h.3)

-- Phase 1 starts the request at the head of the queue when it is waiting, has tokens, and fits: the
-- free blocks cover it and the limit on running requests is not reached. Afterwards it is RUNNING
-- with a table of as many blocks as it needs, stands once among the running requests and once among
-- those newly admitted, and waits no more.
pub phase_one-head :
    (leaked : ℕ → ℕ) (rid : ℕ) (rest : List ℕ) (req : Request) (s : Scheduler)
    → Invariant leaked s
    → s.waiting_ids ≡ rid ∷ rest
    → find? rid s.requests ≡ some req
    → req.state ≡ waiting
    → 0 < get_num_blocks req
    → get_num_blocks req ≤ free_count s.pool
    → length s.running_ids < s.max_num_seqs
    → Started rid req (phase_one s)
unfolding phase_one admission_loop occurs
phase_one-head leaked rid rest req s v q at st some_needed fits room =
    let can : can_allocate s req ≡ true = unfold can_allocate free_blocks_count in ground arith in
    let a : Admission = record { sched = s; newly = []; next = [] } in
    let one : occurs rid s.waiting_ids ≡ 1 + occurs rid rest =
      rw q (ground (arith, occurs-cons rid rid rest)) in
    let h =
      for_each-head rid req a at st can v.accounts.exclusive some_needed rest s.waiting_ids q
        (omega (arith, one, v.queues.once rid)) in
    record {
      table = _;
      length_table = (allocate_request-fits req s.pool v.accounts.exclusive some_needed fits).2;
      stored = h.0;
      once_running = omega (arith, h.1, one, v.queues.once rid);
      once_newly = h.2;
      not_waiting = h.3;
    }
