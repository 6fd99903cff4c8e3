-- ===== src/Scheduler/Ownership/Preemption.antt =====
-- What `Scheduler::preempt_requests` does to each request.
use mathlib.Core.List.{reverse}
use vllm_cpp.Prelude.{
  ℕ, ◌==◌, ◌≤◌, ◌<◌, ◌≡◌, refl, ap, sym, ◌∙◌, true, false, some, List, [], ◌∷◌, ◌++◌, arith,
  Bool-cases, Option-cases, inl, inr, ◌⊎◌, ltb, ltb→lt, subst, ==→eq,
}
use vllm_cpp.Prelude.Assoc.{find?, find?-insert}
use vllm_cpp.Prelude.Occurs.{occurs, occurs-reverse, occurs-snoc, occurs-cons}
use vllm_cpp.KvCache.Manager.{free_blocks}
use vllm_cpp.Request.{Request}
use vllm_cpp.Scheduler.State.{Scheduler, is_running}
use vllm_cpp.Scheduler.Admit.{
  Preemption, evict, preempt_one, preempt_loop, requeue, preempt_requests, write_back, total_needed,
}
use vllm_cpp.Scheduler.Ownership.Queueing.{
  requeue-waiting, requeue-requests, requeue-victim, requeue-other,
}
use vllm_cpp.Scheduler.Ownership.Books.{Invariant}
use vllm_cpp.Scheduler.Ownership.Enough.{preempt_loop-Tally, preempt_loop-enough}
use vllm_cpp.Scheduler.Ownership.Eviction.{
  Evicting, gone_request, evict_lem, not_victim, preempt_one-Evicting, preempt_loop-Evicting,
  start_eviction, start-Evicting, preempt_requests-Invariant,
}

-- The stored request was running and is preempted now, without blocks and without a checkpoint.
pub record IsEvicted (rid : ℕ) (before after : Scheduler) : Type 0 where
  pub request : Request
  pub stored : find? rid before.requests ≡ some request
  pub active : is_running request.state ≡ true
  pub was_running : 0 < occurs rid before.running_ids
  pub preempted : find? rid after.requests ≡ some (gone_request request)

-- The victims so far, and the others.
record Fates (s : Scheduler) (v : Preemption) : Type 0 where
  victim : (rid : ℕ) → 0 < occurs rid v.victims → IsEvicted rid s v.sched
  other : (rid : ℕ) → occurs rid v.victims ≡ 0 → find? rid v.sched.requests ≡ find? rid s.requests

module _ (leaked : ℕ → ℕ) (s : Scheduler) (needed : ℕ) where
  evict-Fates :
      (rid : ℕ) (req : Request) (v : Preemption)
      → Evicting leaked s v
      → Fates s v
      → 0 < occurs rid s.running_ids
      → find? rid v.sched.requests ≡ some req
      → is_running req.state ≡ true
      → Fates s (evict rid req v)
  unfolding write_back
  evict-Fates rid req v w f runs at active =
      let fresh = not_victim leaked s rid req v w at active in
      let after : Scheduler =
        write_back rid (gone_request req) (free_blocks req.block_table v.sched.pool) v.sched in
      let here : IsEvicted rid s after = record {
        request = req;
        stored = sym (f.other rid fresh) ∙ at;
        active = active;
        was_running = runs;
        preempted = ground (arith, find?-insert rid rid (gone_request req) v.sched.requests);
      } in
      rw (evict_lem rid req v) (record {
        victim = λ i h. elim (Bool-cases (rid == i)) [
          | inl same ↦ subst (λ k. IsEvicted k s after) (==→eq rid i same) here
          | inr apart ↦
              let e = f.victim i (ground (arith, occurs-snoc i rid v.victims)) in
              record {
                request = e.request;
                stored = e.stored;
                active = e.active;
                was_running = e.was_running;
                preempted =
                    ground
                      (arith, find?-insert rid i (gone_request req) v.sched.requests, e.preempted);
              }
        ];
        other = λ i h. ground (
          arith,
          occurs-snoc i rid v.victims,
          f.other i,
          find?-insert rid i (gone_request req) v.sched.requests,
        );
      })

  preempt_one-Fates :
      (rid : ℕ) (v : Preemption)
      → Evicting leaked s v
      → Fates s v
      → 0 < occurs rid s.running_ids
      → Fates s (preempt_one needed rid v)
  unfolding preempt_one
  preempt_one-Fates rid v w f runs = elim (Bool-cases (ltb v.freed needed)) [
    | inr over ↦ rw (over, preempt_one) f
    | inl more ↦ elim (Option-cases (find? rid v.sched.requests)) [
      | inl e ↦ rw (more, e, preempt_one) f
      | inr (req, e) ↦ elim (Bool-cases (is_running req.state)) [
        | inl active ↦ rw (more, e, active, preempt_one) (evict-Fates rid req v w f runs e active)
        | inr other ↦ rw (more, e, other, preempt_one) f
      ]
    ]
  ]

  preempt_loop-Fates :
      (rids : List ℕ) (v : Preemption)
      → Evicting leaked s v
      → Fates s v
      → ((i : ℕ) → 0 < occurs i rids → 0 < occurs i s.running_ids)
      → Fates s (preempt_loop needed rids v)
  unfolding preempt_loop
  preempt_loop-Fates [] v w f runs = f
  preempt_loop-Fates (rid ∷ rids) v w f runs =
      preempt_loop-Fates rids (preempt_one needed rid v)
        (preempt_one-Evicting leaked s needed rid v w)
        (preempt_one-Fates rid v w f (runs rid (ground (arith, occurs-cons rid rid rids))))
        (λ i h. runs i (ground (arith, occurs-cons i rid rids)))

-- What preemption leaves: the victims stand in front of the queue, each of them once, and run no
-- more; no other request is changed or leaves the running ones. They had the needed blocks, unless
-- nothing that runs is left, and they had too few without the last one, which stands first.
pub record Preempts (leaked : ℕ → ℕ) (needed : ℕ) (s after : Scheduler) : Type 0 where
  pub victims : List ℕ
  pub valid : Invariant leaked after
  pub queued : after.waiting_ids ≡ victims ++ s.waiting_ids
  pub once : (rid : ℕ) → occurs rid victims ≤ 1
  pub evicted : (rid : ℕ) → 0 < occurs rid victims → IsEvicted rid s after
  pub stopped : (rid : ℕ) → 0 < occurs rid victims → occurs rid after.running_ids ≡ 0
  pub kept :
      (rid : ℕ)
      → occurs rid victims ≡ 0
      → (find? rid after.requests ≡ find? rid s.requests)
        × (occurs rid after.running_ids ≡ occurs rid s.running_ids)
  pub enough :
      (needed ≤ total_needed after.requests victims)
      ⊎ ((rid : ℕ) (req : Request)
          → 0 < occurs rid after.running_ids
          → find? rid after.requests ≡ some req
          → is_running req.state ≡ false)
  pub spare :
      (last : ℕ) (rest : List ℕ) → victims ≡ last ∷ rest → total_needed after.requests rest < needed

-- Preemption of a scheduler that keeps the invariant puts some requests in front of the queue, each
-- once. Each of them was running, its stored request is now preempted and has neither blocks nor a
-- checkpoint, and it is not among the running ones. The others are as they were. The invariant holds
-- again with the same leaked blocks, so the victims' references are all given back. The victims take
-- the needed number of blocks together, unless no running request is left, and fewer than that
-- without the last one, which stands first.
pub preempt_requests_lem :
    (leaked : ℕ → ℕ) (needed : ℕ) (s : Scheduler)
    → Invariant leaked s
    → Preempts leaked needed s (preempt_requests needed s)
unfolding preempt_requests occurs
preempt_requests_lem leaked needed s v =
    let rids = reverse s.running_ids in
    let end : Preemption = preempt_loop needed rids (start_eviction s) in
    let w =
      preempt_loop-Evicting leaked s needed rids (start_eviction s) (start-Evicting leaked s v) in
    let f =
      preempt_loop-Fates leaked s needed rids (start_eviction s) (start-Evicting leaked s v)
        (record { victim = λ i h. elim h [ ]; other = λ i h. refl })
        (λ i h. omega (arith, occurs-reverse i s.running_ids)) in
    let tally =
      preempt_loop-Tally leaked s needed rids (start_eviction s) (start-Evicting leaked s v)
        (record { counted = unfold total_needed in refl; spare = λ x rest e. absurd (cc) }) in
    let runs : (i : ℕ)
        → 0 < occurs i (requeue end.victims end.sched).running_ids
        → 0 < occurs i rids =
      λ i h. elim (Bool-cases (ltb 0 (occurs i end.victims))) [
        | inl some_time ↦
            absurd (omega (arith, h, requeue-victim i end.victims end.sched (ltb→lt _ _ some_time)))
        | inr never ↦ ground (
          arith,
          h,
          requeue-other i end.victims end.sched,
          ap (occurs i) w.same_running,
          occurs-reverse i s.running_ids,
        )
      ] in
    record {
      victims = reverse end.victims;
      valid = preempt_requests-Invariant leaked needed s v;
      queued =
          requeue-waiting end.victims end.sched ∙ ap (λ q. reverse end.victims ++ q) w.same_waiting;
      once = λ i. omega (arith, occurs-reverse i end.victims, w.apart i);
      evicted = λ i h.
          let e = f.victim i (omega (arith, occurs-reverse i end.victims)) in
          record {
            request = e.request;
            stored = e.stored;
            active = e.active;
            was_running = e.was_running;
            preempted = ap (find? i) (requeue-requests end.victims end.sched) ∙ e.preempted;
          };
      stopped = λ i h.
          requeue-victim i end.victims end.sched (omega (arith, occurs-reverse i end.victims));
      kept = λ i h. (
        ap (find? i) (requeue-requests end.victims end.sched)
            ∙ f.other i (omega (arith, occurs-reverse i end.victims)),
        requeue-other i end.victims end.sched (omega (arith, occurs-reverse i end.victims))
            ∙ ap (occurs i) w.same_running,
      );
      enough =
          rw (requeue-requests end.victims end.sched)
            (elim (preempt_loop-enough needed rids (start_eviction s)) [
              | inl e ↦ inl (omega (arith, e, tally.counted))
              | inr g ↦ inr (λ i req h at. g i (runs i h) req at)
            ]);
      spare = λ last rest e. rw (requeue-requests end.victims end.sched) (tally.spare last rest e);
    }
