-- ===== src/Engine/Ownership.antt =====
-- Block ownership over whole steps of the engine of src/paged_engine.cpp.
use vllm_cpp.Prelude.{
  ℕ, ◌+◌, ◌-◌, ◌≤◌, is_empty, Bool, ◌||◌, List, [], ◌∷◌, ◌++◌, All, Option-cases, Bool-cases, ◌≡◌,
  refl, inl, inr, subst, sym, arith,
}
use vllm_cpp.Prelude.Occurs.{occurs}
use vllm_cpp.Float.{Floats}
use vllm_cpp.KvCache.Pool.{BlockPool}
use vllm_cpp.KvCache.Pool.Refs.{refs}
use vllm_cpp.KvCache.Pool.Effects.{count_id}
use vllm_cpp.Request.{Request}
use vllm_cpp.Scheduler.State.{Scheduler}
use vllm_cpp.Scheduler.Batch.{schedule}
use vllm_cpp.Scheduler.Calls.{get_request}
use vllm_cpp.Scheduler.Ownership.Books.{Invariant}
use vllm_cpp.Scheduler.Ownership.Retirement.{schedule-Invariant}
use vllm_cpp.Scheduler.Ownership.Batched.{schedule-quiet}
use vllm_cpp.Scheduler.Ownership.Requests.{report_output-Invariant, NoneWaits, lost_by}
use vllm_cpp.Tokenizer.{TokenizerConfig}
use vllm_cpp.Engine.Model.{Qwen36Model, Buffers}
use vllm_cpp.Engine.Prefill.{run_prefill}
use vllm_cpp.Engine.Isolation.{run_decode-OnlyWrites}
use vllm_cpp.Engine.Growth.{Grows, OnlyWrites-Grows, run_prefill-Grows}
use vllm_cpp.Engine.Step.{
  PagedEngine, Stepping, prefill_one, decode_one, step_one, step_batch, report, step, singletons,
}

-- The books balance up to blocks that are lost: those lost before, and perhaps more.
pub record Leaking (leaked : ℕ → ℕ) (s : Scheduler) : Type 0 where
  pub now : ℕ → ℕ
  pub more : (j : ℕ) → leaked j ≤ now j
  pub invariant : Invariant now s

pub Leaking-trans :
    (leaked : ℕ → ℕ) (s s' : Scheduler) (l : Leaking leaked s)
    → Leaking l.now s'
    → Leaking leaked s'
Leaking-trans leaked s s' l k = record {
  now = k.now;
  more = λ j. omega (arith, l.more j, k.more j);
  invariant = k.invariant;
}

pub Leaking-refl : (leaked : ℕ → ℕ) (s : Scheduler) → Invariant leaked s → Leaking leaked s
Leaking-refl leaked s v = record { now = leaked; more = λ j. omega arith; invariant = v }

-- A pool that has grown: what it counts more is lost.
grown :
    (leaked : ℕ → ℕ) (s : Scheduler) (p' : BlockPool)
    → Invariant leaked s
    → Grows s.pool p'
    → Leaking leaked (record s { pool = p' })
grown leaked s p' v g = record {
  now = λ j. leaked j + (refs p'.blocks j - refs s.pool.blocks j);
  more = λ j. omega arith;
  invariant = record {
    accounts = record {
      exclusive = g.exclusive;
      books = λ j. omega (arith, v.accounts.books j, g.more_refs j);
      keys = v.accounts.keys;
    };
    queues = v.queues;
  };
}

module _ (fl : Floats) (sort : List (fl.Float × ℕ) → List (fl.Float × ℕ)) (draw : ℕ → fl.Float)
    (to_string : ℕ → List ℕ) (tok : TokenizerConfig) (model : Qwen36Model fl) where
  -- A run over the batch: the queue of waiting requests is `waiting`, and no reported id waits.
  record Running (leaked : ℕ → ℕ) (waiting : List ℕ) (s : Stepping fl) : Type 0 where
    leaking : Leaking leaked s.engine.scheduler
    same_waiting : s.engine.scheduler.waiting_ids ≡ waiting
    none_waits : All (λ rid. occurs rid waiting ≡ 0) s.all_rids

  run_prefill-only_pool :
      (r : fl.Float) (req : Request) (b : Buffers fl) (s : Scheduler)
      → (run_prefill fl sort model r req b s).1
        ≡ record s { pool = (run_prefill fl sort model r req b s).1.pool }
  unfolding run_prefill
  run_prefill-only_pool r req b s = elim (Bool-cases (is_empty req.prompt_tokens)) [
    | inl e ↦ rw (e, run_prefill) refl
    | inr e ↦ rw (e, run_prefill) refl
  ]

  prefill_one-Running :
      (leaked : ℕ → ℕ) (waiting : List ℕ) (req : Request) (s : Stepping fl)
      → Running leaked waiting s
      → Running leaked waiting (prefill_one fl sort draw to_string tok model req s)
  unfolding prefill_one
  prefill_one-Running leaked waiting req s w =
      let sched = s.engine.scheduler in
      let r = draw s.engine.draws in
      let only = run_prefill-only_pool r req s.engine.buffers sched in
      let g =
        run_prefill-Grows fl sort model r req s.engine.buffers sched
          w.leaking.invariant.accounts.exclusive in
      record {
        leaking = Leaking-trans leaked sched _ w.leaking (
            subst (λ t. Leaking w.leaking.now t) (sym only)
              (grown w.leaking.now sched _ w.leaking.invariant g));
        same_waiting = rw only w.same_waiting;
        none_waits = w.none_waits;
      }

  All-snoc : (P : ℕ → Type 0) (xs : List ℕ) (x : ℕ) → All P xs → P x → All P (xs ++ (x ∷ []))
  All-snoc P [] x a p = (p, tt)
  All-snoc P (y ∷ xs) x a p = (a.0, All-snoc P xs x a.1 p)

  decode_one-Running :
      (leaked : ℕ → ℕ) (waiting : List ℕ) (rid : ℕ) (req : Request) (s : Stepping fl)
      → occurs rid waiting ≡ 0
      → Running leaked waiting s
      → Running leaked waiting (decode_one fl sort draw to_string tok model rid req s)
  unfolding decode_one
  decode_one-Running leaked waiting rid req s quiet w =
      let sched = s.engine.scheduler in
      let r = draw s.engine.draws in
      let x = w.leaking.invariant.accounts.exclusive in
      record {
        leaking = Leaking-trans leaked sched _ w.leaking (
            grown w.leaking.now sched _ w.leaking.invariant (
              OnlyWrites-Grows req.block_table sched.pool _ x
                (run_decode-OnlyWrites fl sort model r req s.engine.buffers sched.pool)));
        same_waiting = w.same_waiting;
        none_waits = All-snoc (λ i. occurs i waiting ≡ 0) s.all_rids rid w.none_waits quiet;
      }

  step_one-Running :
      (leaked : ℕ → ℕ) (waiting : List ℕ) (rid : ℕ) (flag : Bool) (s : Stepping fl)
      → occurs rid waiting ≡ 0
      → Running leaked waiting s
      → Running leaked waiting (step_one fl sort draw to_string tok model rid flag s)
  unfolding step_one
  step_one-Running leaked waiting rid flag s quiet w =
      elim (Option-cases (get_request rid s.engine.scheduler)) [
        | inl e ↦ rw (e, step_one) w
        | inr (req, e) ↦ elim (Bool-cases (flag || is_empty req.block_table)) [
          | inl prefill ↦ rw (e, prefill, step_one) (prefill_one-Running leaked waiting req s w)
          | inr decode ↦
              rw (e, decode, step_one) (decode_one-Running leaked waiting rid req s quiet w)
        ]
      ]

  step_batch-Running :
      (leaked : ℕ → ℕ) (waiting rids : List ℕ) (flags : List Bool) (s : Stepping fl)
      → All (λ rid. occurs rid waiting ≡ 0) rids
      → Running leaked waiting s
      → Running leaked waiting (step_batch fl sort draw to_string tok model rids flags s)
  unfolding step_batch
  step_batch-Running leaked waiting [] flags s a w = w
  step_batch-Running leaked waiting (rid ∷ rids) [] s a w = w
  step_batch-Running leaked waiting (rid ∷ rids) (flag ∷ flags) s a w =
      step_batch-Running leaked waiting rids flags _ a.1
        (step_one-Running leaked waiting rid flag s a.0 w)

  NoneWaits-All :
      (s : Scheduler) (rids : List ℕ)
      → All (λ rid. occurs rid s.waiting_ids ≡ 0) rids
      → NoneWaits rids s
  NoneWaits-All s [] a = tt
  NoneWaits-All s (rid ∷ rids) a = (a.0, NoneWaits-All s rids a.1)

  report-Leaking :
      (leaked : ℕ → ℕ) (waiting : List ℕ) (s : Stepping fl)
      → Running leaked waiting s
      → Leaking leaked (report fl sort draw to_string tok model s).scheduler
  unfolding report
  report-Leaking leaked waiting s w = elim (Bool-cases (is_empty s.all_new_tokens)) [
    | inl e ↦ rw (e, report) w.leaking
    | inr e ↦
        let sched = s.engine.scheduler in
        let lists = singletons s.all_new_tokens in
        let legal = NoneWaits-All sched s.all_rids (rw w.same_waiting w.none_waits) in
        rw (e, report)
          (Leaking-trans leaked sched _ w.leaking (record {
            now = λ j. w.leaking.now j + count_id j (lost_by s.all_rids lists sched);
            more = λ j. omega arith;
            invariant =
                report_output-Invariant w.leaking.now s.all_rids lists sched legal
                  w.leaking.invariant;
          }))
  ]

  -- A step of the engine keeps the books of the scheduler, up to blocks that it loses: no block
  -- is given to two requests, and no request's block is given back.
  pub step-Leaking :
      (leaked : ℕ → ℕ) (e : PagedEngine fl)
      → Invariant leaked e.scheduler
      → Leaking leaked (step fl sort draw to_string tok model e).0.scheduler
  unfolding step
  step-Leaking leaked e v =
      let scheduled = schedule-Invariant leaked e.scheduler v in
      elim (Bool-cases (is_empty (schedule e.scheduler).1.batch_ids)) [
        | inl idle ↦ rw (idle, step) (Leaking-refl leaked _ scheduled)
        | inr busy ↦
            rw (busy, step)
              (report-Leaking leaked _ _ (
                step_batch-Running leaked (schedule e.scheduler).0.waiting_ids _ _ _
                  (schedule-quiet leaked e.scheduler v)
                  (record {
                    leaking = Leaking-refl leaked _ scheduled;
                    same_waiting = refl;
                    none_waits = tt;
                  })))
      ]
