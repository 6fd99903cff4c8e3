-- ===== src/Engine/History.antt =====
-- What the engine of src/paged_engine.cpp promises about block ownership over any history of calls.
use vllm_cpp.Prelude.{ℕ, ◌≤◌, List, [], ◌∷◌, ℤ, arith}
use vllm_cpp.Prelude.Assoc.{total}
use vllm_cpp.Config.{KvDtype}
use vllm_cpp.Float.{Floats}
use vllm_cpp.KvCache.Pool.Refs.{refs}
use vllm_cpp.Scheduler.Ownership.Outcomes.{holds}
use vllm_cpp.Scheduler.Ownership.Books.{Invariant}
use vllm_cpp.Scheduler.Ownership.Requests.{submit_request-Invariant, remove_request-Invariant}
use vllm_cpp.Scheduler.Ownership.History.{new_scheduler-Invariant}
use vllm_cpp.Tokenizer.{TokenizerConfig}
use vllm_cpp.Engine.Model.{Qwen36Model}
use vllm_cpp.Engine.Step.{PagedEngine, submit, submit_tokens, remove}
use vllm_cpp.Engine.Calls.{
  EngineCall, engine_submit, engine_submit_tokens, engine_step, engine_remove, engine_call,
  engine_calls, new_engine,
}
use vllm_cpp.Engine.Ownership.{Leaking, Leaking-refl, Leaking-trans, step-Leaking}

module _ (fl : Floats) (sort : List (fl.Float × ℕ) → List (fl.Float × ℕ)) (draw : ℕ → fl.Float)
    (to_string : ℕ → List ℕ) (tok : TokenizerConfig) (model : Qwen36Model fl) where
  engine_call-Leaking :
      (leaked : ℕ → ℕ) (c : EngineCall) (e : PagedEngine fl)
      → Invariant leaked e.scheduler
      → Leaking leaked (engine_call fl sort draw to_string tok model c e).scheduler
  unfolding engine_call submit submit_tokens remove
  engine_call-Leaking leaked (engine_submit prompt text n t p) e v =
      Leaking-refl leaked _ (submit_request-Invariant leaked prompt _ n t p e.scheduler v)
  engine_call-Leaking leaked (engine_submit_tokens tokens n t p) e v =
      Leaking-refl leaked _ (submit_request-Invariant leaked "" tokens n t p e.scheduler v)
  engine_call-Leaking leaked engine_step e v =
      step-Leaking fl sort draw to_string tok model leaked e v
  engine_call-Leaking leaked (engine_remove rid) e v =
      Leaking-refl leaked _ (remove_request-Invariant leaked rid e.scheduler v)

  engine_calls-Leaking :
      (leaked : ℕ → ℕ) (cs : List EngineCall) (e : PagedEngine fl)
      → Invariant leaked e.scheduler
      → Leaking leaked (engine_calls fl sort draw to_string tok model cs e).scheduler
  unfolding engine_calls
  engine_calls-Leaking leaked [] e v = Leaking-refl leaked e.scheduler v
  engine_calls-Leaking leaked (c ∷ cs) e v =
      let l = engine_call-Leaking leaked c e v in
      Leaking-trans leaked _ _ l (engine_calls-Leaking l.now cs _ l.invariant)

  -- After any history of calls on a new engine, the tables of all requests together name a block at
  -- most once, and only as often as the pool counts references: no two requests share a block.
  pub engine_calls_ownership :
      (seqs tokens : ℕ) (gpu : ℤ) (cpu : ℕ) (dtype : KvDtype) (cs : List EngineCall) (j : ℕ)
      → let e =
          engine_calls fl sort draw to_string tok model cs
            (new_engine fl model seqs tokens gpu cpu dtype) in
        (total (holds j) e.scheduler.requests ≤ 1)
        × (total (holds j) e.scheduler.requests ≤ refs e.scheduler.pool.blocks j)
  unfolding new_engine
  engine_calls_ownership seqs tokens gpu cpu dtype cs j =
      let l =
        engine_calls-Leaking (λ _. 0) cs (new_engine fl model seqs tokens gpu cpu dtype)
          (new_scheduler-Invariant seqs tokens _ _ _ cpu dtype) in
      (
        omega (arith, l.invariant.accounts.books j, l.invariant.accounts.exclusive.at_most_one j),
        omega (arith, l.invariant.accounts.books j),
      )
