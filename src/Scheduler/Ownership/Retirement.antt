-- ===== src/Scheduler/Ownership/Retirement.antt =====
-- Finished requests give their blocks back: phase 4 of `schedule`, and `schedule` as a whole.
use vllm_cpp.Prelude.{
  ℕ, ◌+◌, ◌≤◌, ◌<◌, ◌≡◌, refl, not, ◌&&◌, some, List, [], ◌∷◌, ◌++◌, arith, Bool-cases,
  Option-cases, inl, inr, ltb,
}
use vllm_cpp.Prelude.Assoc.{find?, find?-insert}
use vllm_cpp.Prelude.Occurs.{occurs, occurs-snoc, occurs-cons}
use vllm_cpp.KvCache.Manager.{free_blocks}
use vllm_cpp.Request.{Request, finished}
use vllm_cpp.Scheduler.State.{Scheduler, is_empty}
use vllm_cpp.Scheduler.Admit.{Admission, write_back, phase_one, phase_two, total_needed}
use vllm_cpp.Scheduler.Batch.{
  Retiring, is_over, retire, retire_one, retire_loop, phase_four, schedule,
}
use vllm_cpp.Scheduler.Ownership.Outcomes.{IsIdle, free_request_blocks_lem}
use vllm_cpp.Scheduler.Ownership.Books.{Books, Invariant, write_back-Books}
use vllm_cpp.Scheduler.Ownership.Admission.{phase_one_loop-Invariant, retry_loop-Invariant}
use vllm_cpp.Scheduler.Ownership.Eviction.{freed-IsBalanced, preempt_requests-Invariant}

-- The invariant inside the loop of phase 4, with the running ids `todo` still to come.
record Midway (leaked : ℕ → ℕ) (todo : List ℕ) (r : Retiring) : Type 0 where
  accounts : Books leaked r.sched
  once : (i : ℕ) → occurs i r.sched.waiting_ids + occurs i todo + occurs i r.next_running ≤ 1
  known :
      (i : ℕ)
      → 0 < occurs i r.sched.waiting_ids + occurs i todo + occurs i r.next_running
      → i < r.sched.next_request_id
  idle :
      (i : ℕ) (req : Request)
      → 0 < occurs i r.sched.waiting_ids
      → find? i r.sched.requests ≡ some req
      → IsIdle req

abbrev pub retired : Request → Request
retired req = record req { state = finished; block_table = []; checkpoint_blocks = [] }

pub retire_lem :
    (rid : ℕ) (req : Request) (r : Retiring)
    → (retire rid req r).sched
      ≡ write_back rid (retired req) (free_blocks req.block_table r.sched.pool) r.sched
unfolding retire
retire_lem rid req r =
    rw (free_request_blocks_lem (record req { state = finished }) r.sched.pool) refl

retire-next :
    (rid : ℕ) (req : Request) (r : Retiring) → (retire rid req r).next_running ≡ r.next_running
unfolding retire
retire-next rid req r = refl

module _ (leaked : ℕ → ℕ) (rid : ℕ) (todo : List ℕ) (r : Retiring)
    (w : Midway leaked (rid ∷ todo) r) where
  skip-Midway : Midway leaked todo r
  skip-Midway = record {
    accounts = w.accounts;
    once = λ i. omega (arith, w.once i, occurs-cons i rid todo);
    known = λ i h. w.known i (omega (arith, occurs-cons i rid todo));
    idle = w.idle;
  }

  keep-Midway : Midway leaked todo (record r { next_running = r.next_running ++ rid ∷ [] })
  keep-Midway = record {
    accounts = w.accounts;
    once = λ i. omega (arith, w.once i, occurs-cons i rid todo, occurs-snoc i rid r.next_running);
    known =
        λ i h. w.known i (omega (arith, occurs-cons i rid todo, occurs-snoc i rid r.next_running));
    idle = w.idle;
  }

  retire-Midway :
      (req : Request)
      → find? rid r.sched.requests ≡ some req
      → Midway leaked todo (retire rid req r)
  unfolding write_back
  retire-Midway req at =
      let e = retire_lem rid req r in
      record {
        accounts = rw e (
            write_back-Books leaked r.sched rid req (retired req) _ w.accounts at
              (freed-IsBalanced leaked r.sched rid req (retired req) w.accounts at refl));
        once = λ i. rw (e, retire-next rid req r) (omega (arith, w.once i, occurs-cons i rid todo));
        known = λ i.
            rw (e, retire-next rid req r) (λ h. w.known i (omega (arith, occurs-cons i rid todo)));
        idle = λ i. rw e (λ q h f. w.idle i q h (
            ground (
              arith,
              find?-insert rid i (retired req) r.sched.requests,
              w.once i,
              occurs-cons i rid todo,
            )));
      }

retire_one-Midway :
    (leaked : ℕ → ℕ) (rid : ℕ) (todo : List ℕ) (r : Retiring)
    → Midway leaked (rid ∷ todo) r
    → Midway leaked todo (retire_one rid r)
unfolding retire_one
retire_one-Midway leaked rid todo r w = elim (Option-cases (find? rid r.sched.requests)) [
  | inl e ↦ rw (e, retire_one) (skip-Midway leaked rid todo r w)
  | inr (req, e) ↦ elim (Bool-cases (is_over req)) [
    | inl over ↦ rw (e, over, retire_one) (retire-Midway leaked rid todo r w req e)
    | inr on ↦ rw (e, on, retire_one) (keep-Midway leaked rid todo r w)
  ]
]

retire_loop-Midway :
    (leaked : ℕ → ℕ) (todo : List ℕ) (r : Retiring)
    → Midway leaked todo r
    → Midway leaked [] (retire_loop todo r)
unfolding retire_loop
retire_loop-Midway leaked [] r w = w
retire_loop-Midway leaked (rid ∷ todo) r w =
    retire_loop-Midway leaked todo (retire_one rid r) (retire_one-Midway leaked rid todo r w)

pub phase_four-Invariant :
    (leaked : ℕ → ℕ) (s : Scheduler) → Invariant leaked s → Invariant leaked (phase_four s).sched
unfolding phase_four occurs
phase_four-Invariant leaked s v =
    let w =
      retire_loop-Midway leaked s.running_ids
        (record { sched = s; next_running = []; reported = [] })
        (record {
          accounts = v.accounts;
          once = λ i. omega (arith, v.queues.once i);
          known = λ i h. v.queues.known i (omega arith);
          idle = v.queues.idle;
        }) in
    record {
      accounts = record {
        exclusive = w.accounts.exclusive;
        books = w.accounts.books;
        keys = w.accounts.keys;
      };
      queues = record {
        once = λ i. omega (arith, w.once i);
        known = λ i h. w.known i (omega arith);
        idle = w.idle;
      };
    }

pub phase_two-Invariant :
    (leaked : ℕ → ℕ) (a : Admission)
    → Invariant leaked a.sched
    → Invariant leaked (phase_two a).sched
unfolding phase_two
phase_two-Invariant leaked a v =
    let needed = total_needed a.sched.requests a.sched.waiting_ids in
    elim (Bool-cases (ltb 0 needed && not (is_empty a.sched.waiting_ids))) [
      | inl e ↦
          rw (e, phase_two)
            (retry_loop-Invariant leaked a.newly _
              (preempt_requests-Invariant leaked needed a.sched v))
      | inr e ↦ rw (e, phase_two) v
    ]

-- A scheduling iteration neither leaks a block nor gives one to two requests.
pub schedule-Invariant :
    (leaked : ℕ → ℕ) (s : Scheduler) → Invariant leaked s → Invariant leaked (schedule s).0
unfolding schedule phase_one
schedule-Invariant leaked s v =
    phase_four-Invariant leaked _
      (phase_two-Invariant leaked _ (phase_one_loop-Invariant leaked s v))
