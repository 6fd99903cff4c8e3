-- ===== src/Scheduler/Ownership/Eviction.antt =====
-- Preemption keeps the scheduler's invariant.
use mathlib.Core.List.{reverse}
use vllm_cpp.Prelude.{
  ℕ, ◌+◌, ◌==◌, ◌≤◌, ◌<◌, ◌≡◌, refl, true, false, some, List, [], ◌∷◌, ◌++◌, arith, Bool-cases,
  Option-cases, inl, inr, ltb, subst, some-injective,
}
use vllm_cpp.Prelude.Assoc.{find?, insert, find?-insert, find?_below, total-ge}
use vllm_cpp.Prelude.Occurs.{occurs, occurs-snoc, occurs-cons}
use vllm_cpp.Scheduler.Ownership.Queueing.{occurs-remove_id}
use vllm_cpp.KvCache.Manager.{free_blocks}
use vllm_cpp.KvCache.Manager.Ownership.{refs-free_blocks, free_blocks-IsExclusive}
use vllm_cpp.Request.{Request, preempted, get_num_blocks}
use vllm_cpp.Scheduler.State.{Scheduler, is_running, checkpoint_request}
use vllm_cpp.Scheduler.Admit.{
  Preemption, evict, preempt_one, preempt_loop, requeue, preempt_requests, write_back,
}
use vllm_cpp.Scheduler.Ownership.Outcomes.{
  holds, holds_none, IsIdle, IsBalanced, free_request_blocks_lem,
}
use vllm_cpp.Scheduler.Ownership.Books.{Books, Queues, Invariant, write_back-Books}

-- A request whose blocks are all given back, whatever else of it changes.
pub freed-IsBalanced :
    (leaked : ℕ → ℕ) (s : Scheduler) (rid : ℕ) (req gone : Request)
    → Books leaked s
    → find? rid s.requests ≡ some req
    → gone.block_table ≡ []
    → IsBalanced req s.pool gone (free_blocks req.block_table s.pool)
freed-IsBalanced leaked s rid req gone b at empty = record {
  exclusive = free_blocks-IsExclusive req.block_table s.pool b.exclusive;
  books = λ j. omega (
    arith,
    refs-free_blocks req.block_table s.pool j,
    b.books j,
    total-ge (holds j) rid req s.requests at,
    holds_none gone empty j,
  );
}

-- The invariant inside the loop of `preempt_requests`. The victims are idle, and not waiting yet.
pub record Evicting (leaked : ℕ → ℕ) (s : Scheduler) (v : Preemption) : Type 0 where
  pub accounts : Books leaked v.sched
  pub same_waiting : v.sched.waiting_ids ≡ s.waiting_ids
  pub same_running : v.sched.running_ids ≡ s.running_ids
  pub queues : Queues s.waiting_ids s.running_ids v.sched.next_request_id v.sched.requests
  pub apart : (rid : ℕ) → occurs rid v.victims + occurs rid s.waiting_ids ≤ 1
  pub victim_known : (rid : ℕ) → 0 < occurs rid v.victims → rid < v.sched.next_request_id
  pub victim_idle :
      (rid : ℕ) (req : Request)
      → 0 < occurs rid v.victims
      → find? rid v.sched.requests ≡ some req
      → IsIdle req

abbrev pub gone_request : Request → Request
gone_request req = record req {
  block_table = [];
  checkpoint_blocks = [];
  state = preempted;
  preempt_count = req.preempt_count + 1;
}

pub evict_lem :
    (rid : ℕ) (req : Request) (v : Preemption)
    → evict rid req v ≡ record {
      sched = write_back rid (gone_request req) (free_blocks req.block_table v.sched.pool) v.sched;
      freed = v.freed + get_num_blocks (gone_request req);
      victims = v.victims ++ rid ∷ [];
    }
unfolding evict checkpoint_request
evict_lem rid req v =
    rw (free_request_blocks_lem (checkpoint_request req) v.sched.pool, checkpoint_request) refl

gone-IsIdle : (req : Request) → IsIdle (gone_request req)
gone-IsIdle req = record { not_running = refl; no_blocks = refl }

module _ (leaked : ℕ → ℕ) (s : Scheduler) (rid : ℕ) (req : Request) (v : Preemption)
    (w : Evicting leaked s v) (at : find? rid v.sched.requests ≡ some req)
    (active : is_running req.state ≡ true) where
  -- A running request is neither waiting nor a victim already.
  not_waiting : occurs rid s.waiting_ids ≡ 0
  not_waiting =
      ground
        (arith, (λ (h : 0 < occurs rid s.waiting_ids). (w.queues.idle rid req h at).not_running))

  pub not_victim : occurs rid v.victims ≡ 0
  not_victim =
      ground (arith, (λ (h : 0 < occurs rid v.victims). (w.victim_idle rid req h at).not_running))

  -- What the change at `rid` leaves of the other requests.
  others :
      (i : ℕ) (r : Request)
      → (rid == i) ≡ false
      → find? i (insert rid (gone_request req) v.sched.requests) ≡ some r
      → find? i v.sched.requests ≡ some r
  others i r e h = ground (arith, find?-insert rid i (gone_request req) v.sched.requests)

  itself :
      (i : ℕ) (r : Request)
      → (rid == i) ≡ true
      → find? i (insert rid (gone_request req) v.sched.requests) ≡ some r
      → IsIdle r
  itself i r e h =
      subst IsIdle
        (some-injective _ _
          (ground (arith, find?-insert rid i (gone_request req) v.sched.requests)))
        (gone-IsIdle req)

  pub evict-Evicting : Evicting leaked s (evict rid req v)
  unfolding write_back
  evict-Evicting = rw (evict_lem rid req v) (record {
    accounts =
        write_back-Books leaked v.sched rid req (gone_request req) _ w.accounts at
          (freed-IsBalanced leaked v.sched rid req (gone_request req) w.accounts at refl);
    same_waiting = w.same_waiting;
    same_running = w.same_running;
    queues = record {
      once = w.queues.once;
      known = w.queues.known;
      idle = λ i r h e. elim (Bool-cases (rid == i)) [
        | inl same ↦ itself i r same e
        | inr other ↦ w.queues.idle i r h (others i r other e)
      ];
    };
    apart = λ i. ground (arith, w.apart i, occurs-snoc i rid v.victims, not_waiting, not_victim);
    victim_known = λ i h. ground (
      arith,
      occurs-snoc i rid v.victims,
      w.victim_known i,
      find?_below v.sched.next_request_id rid v.sched.requests req w.accounts.keys at,
    );
    victim_idle = λ i r h e. elim (Bool-cases (rid == i)) [
      | inl same ↦ itself i r same e
      | inr other ↦
          w.victim_idle i r (ground (arith, occurs-snoc i rid v.victims)) (others i r other e)
    ];
  })

pub preempt_one-Evicting :
    (leaked : ℕ → ℕ) (s : Scheduler) (needed rid : ℕ) (v : Preemption)
    → Evicting leaked s v
    → Evicting leaked s (preempt_one needed rid v)
unfolding preempt_one
preempt_one-Evicting leaked s needed rid v w = elim (Bool-cases (ltb v.freed needed)) [
  | inr over ↦ rw (over, preempt_one) w
  | inl more ↦ elim (Option-cases (find? rid v.sched.requests)) [
    | inl e ↦ rw (more, e, preempt_one) w
    | inr (req, e) ↦ elim (Bool-cases (is_running req.state)) [
      | inl active ↦
          rw (more, e, active, preempt_one) (evict-Evicting leaked s rid req v w e active)
      | inr other ↦ rw (more, e, other, preempt_one) w
    ]
  ]
]

pub preempt_loop-Evicting :
    (leaked : ℕ → ℕ) (s : Scheduler) (needed : ℕ) (rids : List ℕ) (v : Preemption)
    → Evicting leaked s v
    → Evicting leaked s (preempt_loop needed rids v)
unfolding preempt_loop
preempt_loop-Evicting leaked s needed [] v w = w
preempt_loop-Evicting leaked s needed (rid ∷ rids) v w =
    preempt_loop-Evicting leaked s needed rids (preempt_one needed rid v)
      (preempt_one-Evicting leaked s needed rid v w)

-- The invariant while the victims go back to the front of the queue.
record Requeueing (leaked : ℕ → ℕ) (victims : List ℕ) (s : Scheduler) : Type 0 where
  valid : Invariant leaked s
  apart : (rid : ℕ) → occurs rid victims + occurs rid s.waiting_ids ≤ 1
  victim_known : (rid : ℕ) → 0 < occurs rid victims → rid < s.next_request_id
  victim_idle :
      (rid : ℕ) (req : Request)
      → 0 < occurs rid victims
      → find? rid s.requests ≡ some req
      → IsIdle req

requeue-Invariant :
    (leaked : ℕ → ℕ) (victims : List ℕ) (s : Scheduler)
    → Requeueing leaked victims s
    → Invariant leaked (requeue victims s)
unfolding requeue
requeue-Invariant leaked [] s q = q.valid
requeue-Invariant leaked (rid ∷ rids) s q = requeue-Invariant leaked rids _ (record {
  valid = record {
    accounts = record {
      exclusive = q.valid.accounts.exclusive;
      books = q.valid.accounts.books;
      keys = q.valid.accounts.keys;
    };
    queues = record {
      once = λ i. ground (
        arith,
        q.valid.queues.once i,
        q.apart i,
        occurs-cons i rid rids,
        occurs-cons i rid s.waiting_ids,
        occurs-remove_id i rid s.running_ids,
      );
      known = λ i h. ground (
        arith,
        q.valid.queues.known i,
        q.victim_known i,
        occurs-cons i rid rids,
        occurs-cons i rid s.waiting_ids,
        occurs-remove_id i rid s.running_ids,
      );
      idle = λ i req h e. elim (Bool-cases (rid == i)) [
        | inl same ↦ q.victim_idle i req (ground (arith, occurs-cons i rid rids)) e
        | inr other ↦ q.valid.queues.idle i req (ground (arith, occurs-cons i rid s.waiting_ids)) e
      ];
    };
  };
  apart = λ i. ground (arith, q.apart i, occurs-cons i rid rids, occurs-cons i rid s.waiting_ids);
  victim_known = λ i h. q.victim_known i (omega (arith, occurs-cons i rid rids));
  victim_idle = λ i req h. q.victim_idle i req (omega (arith, occurs-cons i rid rids));
})

-- The loop of `preempt_requests` from the start.
abbrev pub start_eviction : Scheduler → Preemption
start_eviction s = record { sched = s; freed = 0; victims = [] }

pub start-Evicting :
    (leaked : ℕ → ℕ) (s : Scheduler) → Invariant leaked s → Evicting leaked s (start_eviction s)
unfolding occurs
start-Evicting leaked s v = record {
  accounts = v.accounts;
  same_waiting = refl;
  same_running = refl;
  queues = v.queues;
  apart = λ i. omega (arith, v.queues.once i);
  victim_known = λ i h. elim h [ ];
  victim_idle = λ i req h. elim h [ ];
}

-- Preemption keeps the invariant.
pub preempt_requests-Invariant :
    (leaked : ℕ → ℕ) (needed : ℕ) (s : Scheduler)
    → Invariant leaked s
    → Invariant leaked (preempt_requests needed s)
unfolding preempt_requests
preempt_requests-Invariant leaked needed s v =
    let w =
      preempt_loop-Evicting leaked s needed (reverse s.running_ids) (start_eviction s)
        (start-Evicting leaked s v) in
    requeue-Invariant leaked _ _ (record {
      valid = record {
        accounts = w.accounts;
        queues = rw (w.same_waiting, w.same_running) w.queues;
      };
      apart = λ i. rw w.same_waiting (w.apart i);
      victim_known = w.victim_known;
      victim_idle = w.victim_idle;
    })
