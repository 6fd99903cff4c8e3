-- ===== src/Scheduler/Ownership/Requests.antt =====
-- Submitting, cancelling and reporting, and whole histories of calls.
use Prim.Native.String.{String}
use vllm_cpp.Prelude.{
  ℕ, ◌+◌, ◌==◌, ◌≡◌, refl, none, some, List, [], ◌∷◌, ◌++◌, ℤ, arith, Bool-cases, Option-cases, inl,
  inr, subst, some-injective, ap,
}
use vllm_cpp.Prelude.Assoc.{
  find?, total-insert-none, total-erase, KeysBelow-insert, KeysBelow-erase, KeysBelow-suc,
  find?-erase_ne, find?-insert, find?_above, find?_below, total-insert-some,
}
use vllm_cpp.Prelude.Occurs.{occurs, occurs-snoc}
use vllm_cpp.KvCache.Pool.Effects.{count_id, count_id-append}
use vllm_cpp.KvCache.Manager.Ownership.{refs-free_blocks, free_blocks-IsExclusive}
use vllm_cpp.Request.{Request}
use vllm_cpp.Scheduler.State.{Scheduler}
use vllm_cpp.Scheduler.Admit.{write_back}
use vllm_cpp.Scheduler.Calls.{
  submit_request, new_request, remove_request, drop_request, report_one, report_output, take_tokens,
  grow_table,
}
use vllm_cpp.Scheduler.Ownership.Outcomes.{
  holds, holds_none, IsIdle, free_request_blocks_lem, lost, grow_table_lem,
}
use vllm_cpp.Scheduler.Ownership.Queueing.{occurs-remove_id}
use vllm_cpp.Scheduler.Ownership.Books.{Invariant, Invariant-eq}

new_request-IsIdle :
    (id : ℕ) (prompt : String) (tokens : List ℕ) (n t p : ℕ)
    → IsIdle (new_request id prompt tokens n t p)
unfolding new_request
new_request-IsIdle id prompt tokens n t p = record { not_running = refl; no_blocks = refl }

pub submit_request-Invariant :
    (leaked : ℕ → ℕ) (prompt : String) (tokens : List ℕ) (n t p : ℕ) (s : Scheduler)
    → Invariant leaked s
    → Invariant leaked (submit_request prompt tokens n t p s).0
unfolding submit_request new_request count_id
submit_request-Invariant leaked prompt tokens n t p s v =
    let id = s.next_request_id in
    let req = new_request id prompt tokens n t p in
    let fresh = find?_above id id s.requests (omega arith) v.accounts.keys in
    record {
      accounts = record {
        exclusive = v.accounts.exclusive;
        books = λ j. omega (
          arith,
          v.accounts.books j,
          total-insert-none (holds j) id req s.requests fresh,
          holds_none req refl j,
        );
        keys =
            KeysBelow-insert (id + 1) id req s.requests (omega arith)
              (KeysBelow-suc id s.requests v.accounts.keys);
      };
      queues = record {
        once =
            λ i. ground (arith, v.queues.once i, v.queues.known i, occurs-snoc i id s.waiting_ids);
        known = λ i h. ground (arith, v.queues.known i, occurs-snoc i id s.waiting_ids);
        idle = λ i r h e. elim (Bool-cases (id == i)) [
          | inl same ↦
              subst IsIdle (some-injective _ _ (ground (arith, find?-insert id i req s.requests)))
                (new_request-IsIdle id prompt tokens n t p)
          | inr other ↦
              v.queues.idle i r (ground (arith, occurs-snoc i id s.waiting_ids))
                (ground (arith, find?-insert id i req s.requests))
        ];
      };
    }

drop_request-Invariant :
    (leaked : ℕ → ℕ) (rid : ℕ) (req : Request) (s : Scheduler)
    → find? rid s.requests ≡ some req
    → Invariant leaked s
    → Invariant leaked (drop_request rid req s)
unfolding drop_request
drop_request-Invariant leaked rid req s at v = rw (free_request_blocks_lem req s.pool) (record {
  accounts = record {
    exclusive = free_blocks-IsExclusive req.block_table s.pool v.accounts.exclusive;
    books = λ j. omega (
      arith,
      v.accounts.books j,
      refs-free_blocks req.block_table s.pool j,
      total-erase (holds j) rid req s.requests at,
    );
    keys = KeysBelow-erase s.next_request_id rid s.requests v.accounts.keys;
  };
  queues = record {
    once = λ i. ground (
      arith,
      v.queues.once i,
      occurs-remove_id i rid s.waiting_ids,
      occurs-remove_id i rid s.running_ids,
    );
    known = λ i h. ground (
      arith,
      v.queues.known i,
      occurs-remove_id i rid s.waiting_ids,
      occurs-remove_id i rid s.running_ids,
    );
    idle = λ i r h e.
        v.queues.idle i r (ground (arith, occurs-remove_id i rid s.waiting_ids))
          (ground (arith, occurs-remove_id i rid s.waiting_ids, find?-erase_ne rid i s.requests));
  };
})

pub remove_request-Invariant :
    (leaked : ℕ → ℕ) (rid : ℕ) (s : Scheduler)
    → Invariant leaked s
    → Invariant leaked (remove_request rid s)
unfolding remove_request
remove_request-Invariant leaked rid s v = elim (Option-cases (find? rid s.requests)) [
  | inl e ↦ rw (e, remove_request) v
  | inr (req, e) ↦ rw (e, remove_request) (drop_request-Invariant leaked rid req s e v)
]

-- The blocks that a report takes from the pool and then forgets.
unfoldable pub lost_by_one : ℕ → List ℕ → Scheduler → List ℤ
unfolding lost
lost_by_one rid tokens s = elim (find? rid s.requests) [
  | none ↦ []
  | some req ↦ lost (take_tokens tokens req) s.pool
]

unfoldable pub lost_by : List ℕ → List (List ℕ) → Scheduler → List ℤ
unfolding lost_by_one
lost_by (rid ∷ rids) (tokens ∷ lists) s =
    lost_by_one rid tokens s ++ lost_by rids lists (report_one rid tokens s)
lost_by _ _ s = []

-- None of the ids waits for admission.
abbrev pub NoneWaits : List ℕ → Scheduler → Type 0
NoneWaits [] s = Unit
NoneWaits (rid ∷ rids) s = (occurs rid s.waiting_ids ≡ 0) × NoneWaits rids s

take_tokens-table :
    (tokens : List ℕ) (req : Request) → (take_tokens tokens req).block_table ≡ req.block_table
unfolding take_tokens
take_tokens-table tokens req = refl

report_one-waiting :
    (rid : ℕ) (tokens : List ℕ) (s : Scheduler)
    → (report_one rid tokens s).waiting_ids ≡ s.waiting_ids
unfolding report_one write_back
report_one-waiting rid tokens s = ground arith

NoneWaits-report_one :
    (rids : List ℕ) (rid : ℕ) (tokens : List ℕ) (s : Scheduler)
    → NoneWaits rids s
    → NoneWaits rids (report_one rid tokens s)
NoneWaits-report_one [] rid tokens s h = tt
NoneWaits-report_one (i ∷ rids) rid tokens s h =
    (rw (report_one-waiting rid tokens s) h.0, NoneWaits-report_one rids rid tokens s h.1)

report_one-Invariant :
    (leaked : ℕ → ℕ) (rid : ℕ) (tokens : List ℕ) (s : Scheduler)
    → occurs rid s.waiting_ids ≡ 0
    → Invariant leaked s
    → Invariant (λ j. leaked j + count_id j (lost_by_one rid tokens s)) (report_one rid tokens s)
unfolding report_one lost_by_one count_id write_back
report_one-Invariant leaked rid tokens s quiet v = elim (Option-cases (find? rid s.requests)) [
  | inl e ↦
      rw (e, report_one, lost_by_one)
        (record {
          accounts = record {
            exclusive = v.accounts.exclusive;
            books = λ j. omega (arith, v.accounts.books j);
            keys = v.accounts.keys;
          };
          queues = v.queues;
        })
  | inr (req, e) ↦
      let grown = take_tokens tokens req in
      let g = grow_table_lem grown s.pool v.accounts.exclusive in
      rw (e, report_one, lost_by_one)
        (record {
          accounts = record {
            exclusive = g.0;
            books = λ j. omega (
              arith,
              v.accounts.books j,
              g.1 j,
              total-insert-some (holds j) rid (grow_table grown s.pool).0 req s.requests e,
              ap (count_id j) (take_tokens-table tokens req),
            );
            keys =
                KeysBelow-insert s.next_request_id rid _ s.requests
                  (find?_below s.next_request_id rid s.requests req v.accounts.keys e)
                  v.accounts.keys;
          };
          queues = record {
            once = v.queues.once;
            known = v.queues.known;
            idle = λ i r h f.
                v.queues.idle i r h
                  (ground (arith, find?-insert rid i (grow_table grown s.pool).0 s.requests));
          };
        })
]

-- A report that no waiting request is named in loses only the blocks that a failed call had taken.
pub report_output-Invariant :
    (leaked : ℕ → ℕ) (rids : List ℕ) (lists : List (List ℕ)) (s : Scheduler)
    → NoneWaits rids s
    → Invariant leaked s
    → Invariant (λ j. leaked j + count_id j (lost_by rids lists s)) (report_output rids lists s)
unfolding report_output lost_by count_id
report_output-Invariant leaked [] lists s h v = Invariant-eq leaked _ s (λ j. omega arith) v
report_output-Invariant leaked (rid ∷ rids) [] s h v = Invariant-eq leaked _ s (λ j. omega arith) v
report_output-Invariant leaked (rid ∷ rids) (tokens ∷ lists) s h v =
    let s' = report_one rid tokens s in
    let now = lost_by_one rid tokens s in
    let later = lost_by rids lists s' in
    Invariant-eq (λ j. leaked j + count_id j now + count_id j later) _ _
      (λ j. omega (arith, count_id-append j now later))
      (report_output-Invariant (λ j. leaked j + count_id j now) rids lists s'
        (NoneWaits-report_one rids rid tokens s h.1)
        (report_one-Invariant leaked rid tokens s h.0 v))
