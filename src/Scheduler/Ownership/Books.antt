-- ===== src/Scheduler/Ownership/Books.antt =====
-- The scheduler's invariant: the references that the pool counts, and the two queues.
use vllm_cpp.Prelude.{ℕ, ◌+◌, ◌≤◌, ◌<◌, ◌≡◌, some, List, arith}
use vllm_cpp.Prelude.Assoc.{
  find?, total, KeysBelow, total-insert-some, KeysBelow-insert, find?_below,
}
use vllm_cpp.Prelude.Occurs.{occurs}
use vllm_cpp.KvCache.Pool.{BlockPool}
use vllm_cpp.KvCache.Pool.Refs.{refs}
use vllm_cpp.KvCache.Manager.Ownership.{IsExclusive}
use vllm_cpp.Request.{Request}
use vllm_cpp.Scheduler.State.{Scheduler}
use vllm_cpp.Scheduler.Admit.{write_back}
use vllm_cpp.Scheduler.Ownership.Outcomes.{holds, IsIdle, IsBalanced}

-- Each reference that the pool counts is in one request's table, or is among the `leaked`.
pub record Books (leaked : ℕ → ℕ) (s : Scheduler) : Type 0 where
  pub exclusive : IsExclusive s.pool
  pub books : (j : ℕ) → refs s.pool.blocks j ≡ total (holds j) s.requests + leaked j
  pub keys : KeysBelow s.next_request_id s.requests

-- The queue `waiting` and the running list of a scheduler: an id stands in one of them at most, and
-- a waiting request holds no block.
pub record Queues (waiting running : List ℕ) (next : ℕ) (m : List (ℕ × Request)) : Type 0 where
  pub once : (rid : ℕ) → occurs rid waiting + occurs rid running ≤ 1
  pub known : (rid : ℕ) → 0 < occurs rid waiting + occurs rid running → rid < next
  pub idle :
      (rid : ℕ) (req : Request) → 0 < occurs rid waiting → find? rid m ≡ some req → IsIdle req

pub record Invariant (leaked : ℕ → ℕ) (s : Scheduler) : Type 0 where
  pub accounts : Books leaked s
  pub queues : Queues s.waiting_ids s.running_ids s.next_request_id s.requests

pub Invariant-eq :
    (l l' : ℕ → ℕ) (s : Scheduler) → ((j : ℕ) → l j ≡ l' j) → Invariant l s → Invariant l' s
Invariant-eq l l' s same v = record {
  accounts = record {
    exclusive = v.accounts.exclusive;
    books = λ j. omega (arith, v.accounts.books j, same j);
    keys = v.accounts.keys;
  };
  queues = v.queues;
}

-- Writing a request back whose references balance keeps the books.
pub write_back-Books :
    (leaked : ℕ → ℕ) (s : Scheduler) (rid : ℕ) (req req' : Request) (p' : BlockPool)
    → Books leaked s
    → find? rid s.requests ≡ some req
    → IsBalanced req s.pool req' p'
    → Books leaked (write_back rid req' p' s)
unfolding write_back
write_back-Books leaked s rid req req' p' b e w = record {
  exclusive = w.exclusive;
  books = λ j.
      omega (arith, b.books j, w.books j, total-insert-some (holds j) rid req' req s.requests e);
  keys =
      KeysBelow-insert s.next_request_id rid req' s.requests
        (find?_below s.next_request_id rid s.requests req b.keys e) b.keys;
}
