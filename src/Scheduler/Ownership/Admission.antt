-- ===== src/Scheduler/Ownership/Admission.antt =====
-- The loops that admit requests keep the scheduler's invariant.
use vllm_cpp.Prelude.{
  ℕ, ◌+◌, ◌==◌, ◌≤◌, ◌<◌, ◌≡◌, refl, Bool, true, false, some, List, [], ◌∷◌, arith, Bool-cases,
  Option-cases, inl, inr, subst,
}
use vllm_cpp.Prelude.Assoc.{find?, insert, find?-insert}
use vllm_cpp.Prelude.Occurs.{occurs, occurs-snoc, occurs-cons}
use vllm_cpp.KvCache.Pool.{BlockPool, free_count}
use vllm_cpp.KvCache.Manager.{free_blocks_count}
use vllm_cpp.KvCache.Manager.Ownership.{IsExclusive}
use vllm_cpp.Request.{Request, get_num_blocks, waiting, running, finished, preempted, RequestState}
use vllm_cpp.Scheduler.State.{Scheduler, Outcome, can_allocate, allocate_request, restore_request}
use vllm_cpp.Scheduler.Admit.{
  Admission, defer, settle, attempt, admit, admit_by_state, readmit, write_back, for_each,
  admission_loop,
}
use vllm_cpp.Scheduler.Ownership.Outcomes.{
  IsIdle, IsSound, allocate_request-IsSound, restore_request-IsSound,
}
use vllm_cpp.Scheduler.Ownership.Books.{Books, Invariant, write_back-Books}

-- The invariant inside a loop, with the ids `todo` still to come.
pub record Midway (leaked : ℕ → ℕ) (todo : List ℕ) (a : Admission) : Type 0 where
  pub accounts : Books leaked a.sched
  pub once : (rid : ℕ) → occurs rid todo + occurs rid a.next + occurs rid a.sched.running_ids ≤ 1
  pub known :
      (rid : ℕ)
      → 0 < occurs rid todo + occurs rid a.next + occurs rid a.sched.running_ids
      → rid < a.sched.next_request_id
  pub idle :
      (rid : ℕ) (req : Request)
      → 0 < occurs rid todo + occurs rid a.next
      → find? rid a.sched.requests ≡ some req
      → IsIdle req

defer-Midway :
    (leaked : ℕ → ℕ) (rid : ℕ) (todo : List ℕ) (a : Admission)
    → Midway leaked (rid ∷ todo) a
    → Midway leaked todo (defer rid a)
unfolding defer
defer-Midway leaked rid todo a w = record {
  accounts = w.accounts;
  once = λ i. omega (arith, w.once i, occurs-cons i rid todo, occurs-snoc i rid a.next);
  known = λ i h. w.known i (omega (arith, occurs-cons i rid todo, occurs-snoc i rid a.next));
  idle = λ i req h. w.idle i req (omega (arith, occurs-cons i rid todo, occurs-snoc i rid a.next));
}

skip-Midway :
    (leaked : ℕ → ℕ) (rid : ℕ) (todo : List ℕ) (a : Admission)
    → Midway leaked (rid ∷ todo) a
    → Midway leaked todo a
skip-Midway leaked rid todo a w = record {
  accounts = w.accounts;
  once = λ i. omega (arith, w.once i, occurs-cons i rid todo);
  known = λ i h. w.known i (omega (arith, occurs-cons i rid todo));
  idle = λ i req h. w.idle i req (omega (arith, occurs-cons i rid todo));
}

-- An id that is due stands nowhere else, so a change to its request leaves the others idle.
module _ (leaked : ℕ → ℕ) (rid : ℕ) (todo : List ℕ) (a : Admission) (req : Request)
    (w : Midway leaked (rid ∷ todo) a) (at : find? rid a.sched.requests ≡ some req) where
  due-IsIdle : IsIdle req
  due-IsIdle = w.idle rid req (ground (arith, occurs-cons rid rid todo)) at

  elsewhere : (i : ℕ) → 0 < occurs i todo + occurs i a.next → (rid == i) ≡ false
  elsewhere i h = ground (arith, w.once i, occurs-cons i rid todo)

  written-Midway :
      (o : Outcome)
      → IsSound req a.sched.pool o
      → o.done ≡ false
      → Midway leaked (rid ∷ todo) (record a { sched = write_back rid o.request o.pool a.sched })
  unfolding write_back
  written-Midway o s e = record {
    accounts = write_back-Books leaked a.sched rid req o.request o.pool w.accounts at s.balanced;
    once = w.once;
    known = w.known;
    idle = λ i r h e'. elim (Bool-cases (rid == i)) [
      | inl same ↦ subst IsIdle (same_request i r same e') due-IsIdle
      | inr other ↦ w.idle i r h (ground (arith, find?-insert rid i o.request a.sched.requests))
    ];
  }
    where
      same_request :
          (i : ℕ) (r : Request)
          → (rid == i) ≡ true
          → find? i (insert rid o.request a.sched.requests) ≡ some r
          → req ≡ r
      same_request i r same e' =
          ground (arith, find?-insert rid i o.request a.sched.requests, s.refused e)

  settle-Midway :
      (o : Outcome)
      → IsSound req a.sched.pool o
      → (d : Bool) → o.done ≡ d
      → Midway leaked todo (settle rid o a)
  unfolding settle write_back defer
  settle-Midway o s true e =
      rw (e, settle)
        (record {
          accounts =
              let b =
                write_back-Books leaked a.sched rid req o.request o.pool w.accounts at s.balanced in
              record { exclusive = b.exclusive; books = b.books; keys = b.keys };
          once = λ i.
              omega
                (arith, w.once i, occurs-cons i rid todo, occurs-snoc i rid a.sched.running_ids);
          known = λ i h.
              w.known i
                (omega (arith, occurs-cons i rid todo, occurs-snoc i rid a.sched.running_ids));
          idle = λ i r h e'.
              w.idle i r (omega (arith, occurs-cons i rid todo))
                (ground (arith, find?-insert rid i o.request a.sched.requests, elsewhere i h));
        })
  settle-Midway o s false e = rw (e, settle) (defer-Midway leaked rid todo _ (written-Midway o s e))

  -- A call may use the free blocks that admission control has counted.
  attempt-Midway :
      (f : Request → BlockPool → Outcome)
      → (IsExclusive a.sched.pool
          → req.block_table ≡ []
          → get_num_blocks req ≤ free_count a.sched.pool
          → IsSound req a.sched.pool (f req a.sched.pool))
      → Midway leaked todo (attempt f rid req a)
  unfolding attempt can_allocate free_blocks_count
  attempt-Midway f sound = elim (Bool-cases (can_allocate a.sched req)) [
    | inl e ↦
        rw (e, attempt)
          (settle-Midway _ (sound w.accounts.exclusive due-IsIdle.no_blocks (ground arith)) _ refl)
    | inr e ↦ rw (e, attempt) (defer-Midway leaked rid todo a w)
  ]

admit_by_state-Midway :
    (leaked : ℕ → ℕ) (rid : ℕ) (todo : List ℕ) (a : Admission) (req : Request)
    → Midway leaked (rid ∷ todo) a
    → find? rid a.sched.requests ≡ some req
    → (st : RequestState) → Midway leaked todo (admit_by_state rid req st a)
unfolding admit_by_state
admit_by_state-Midway leaked rid todo a req w at waiting =
    attempt-Midway leaked rid todo a req w at allocate_request
      (allocate_request-IsSound req a.sched.pool)
admit_by_state-Midway leaked rid todo a req w at running = defer-Midway leaked rid todo a w
admit_by_state-Midway leaked rid todo a req w at finished = defer-Midway leaked rid todo a w
admit_by_state-Midway leaked rid todo a req w at preempted =
    attempt-Midway leaked rid todo a req w at restore_request
      (restore_request-IsSound req a.sched.pool)

admit-Midway :
    (leaked : ℕ → ℕ) (rid : ℕ) (todo : List ℕ) (a : Admission)
    → Midway leaked (rid ∷ todo) a
    → Midway leaked todo (admit rid a)
unfolding admit
admit-Midway leaked rid todo a w = elim (Option-cases (find? rid a.sched.requests)) [
  | inl e ↦ rw (e, admit) (skip-Midway leaked rid todo a w)
  | inr (req, e) ↦ rw (e, admit) (admit_by_state-Midway leaked rid todo a req w e req.state)
]

readmit-Midway :
    (leaked : ℕ → ℕ) (rid : ℕ) (todo : List ℕ) (a : Admission)
    → Midway leaked (rid ∷ todo) a
    → Midway leaked todo (readmit rid a)
unfolding readmit
readmit-Midway leaked rid todo a w = elim (Option-cases (find? rid a.sched.requests)) [
  | inl e ↦ rw (e, readmit) (skip-Midway leaked rid todo a w)
  | inr (req, e) ↦
      rw (e, readmit)
        (attempt-Midway leaked rid todo a req w e allocate_request
          (allocate_request-IsSound req a.sched.pool))
]

-- A body that keeps the invariant for each id keeps it over the whole queue.
module _ (leaked : ℕ → ℕ) (body : ℕ → Admission → Admission)
    (keep : (rid : ℕ) (todo : List ℕ) (a : Admission)
      → Midway leaked (rid ∷ todo) a
      → Midway leaked todo (body rid a)) where
  for_each-Midway :
      (todo : List ℕ) (a : Admission)
      → Midway leaked todo a
      → Midway leaked [] (for_each body todo a)
  unfolding for_each
  for_each-Midway [] a w = w
  for_each-Midway (rid ∷ todo) a w = for_each-Midway todo (body rid a) (keep rid todo a w)

  admission_loop-Invariant :
      (newly : List ℕ) (s : Scheduler)
      → Invariant leaked s
      → Invariant leaked (admission_loop body newly s).sched
  unfolding admission_loop occurs
  admission_loop-Invariant newly s v =
      let w =
        for_each-Midway s.waiting_ids (record { sched = s; newly = newly; next = [] })
          (record {
            accounts = v.accounts;
            once = λ i. omega (arith, v.queues.once i);
            known = λ i h. v.queues.known i (omega arith);
            idle = λ i req h. v.queues.idle i req (omega arith);
          }) in
      record {
        accounts = record {
          exclusive = w.accounts.exclusive;
          books = w.accounts.books;
          keys = w.accounts.keys;
        };
        queues = record {
          once = λ i. omega (arith, w.once i);
          known = λ i h. w.known i (omega arith);
          idle = λ i req h. w.idle i req (omega arith);
        };
      }

pub phase_one_loop-Invariant :
    (leaked : ℕ → ℕ) (s : Scheduler)
    → Invariant leaked s
    → Invariant leaked (admission_loop admit [] s).sched
phase_one_loop-Invariant leaked = admission_loop-Invariant leaked admit (admit-Midway leaked) []

pub retry_loop-Invariant :
    (leaked : ℕ → ℕ) (newly : List ℕ) (s : Scheduler)
    → Invariant leaked s
    → Invariant leaked (admission_loop readmit newly s).sched
retry_loop-Invariant leaked = admission_loop-Invariant leaked readmit (readmit-Midway leaked)
