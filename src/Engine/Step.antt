-- ===== src/Engine/Step.antt =====
-- PagedEngine of src/paged_engine.cpp around the scheduler: submit, step and the others.
use vllm_cpp.Prelude.{
  ℕ, ◌+◌, ◌==◌, ltb, is_empty, Bool, true, ◌||◌, if◌then◌else◌, List, [], ◌∷◌, ◌++◌, length, none,
  some,
}
use Prim.Native.String.{String}
use vllm_cpp.Config.{eos_token_id}
use vllm_cpp.Float.{Floats}
use vllm_cpp.Request.{Request}
use vllm_cpp.Scheduler.State.{Scheduler, is_finished}
use vllm_cpp.Scheduler.Batch.{schedule}
use vllm_cpp.Scheduler.Calls.{
  submit_request, remove_request, report_output, get_request, num_waiting, num_running,
}
use vllm_cpp.Tokenizer.{TokenizerConfig, tokenize, decode_token}
use vllm_cpp.Engine.Model.{Qwen36Model, Buffers}
use vllm_cpp.Engine.Prefill.{run_prefill}
use vllm_cpp.Engine.Decode.{run_decode}

pub record EngineOutput : Type 0 where
  pub request_ids : List ℕ
  pub new_token_ids : List ℕ
  pub new_texts : List (List ℕ)
  pub finished : List Bool
  pub num_prompt_tokens : ℕ
  pub num_generation_tokens : ℕ

abbrev pub no_results : EngineOutput
no_results = record {
  request_ids = [];
  new_token_ids = [];
  new_texts = [];
  finished = [];
  num_prompt_tokens = 0;
  num_generation_tokens = 0;
}

unfoldable pub singletons : List ℕ → List (List ℕ)
singletons [] = []
singletons (t ∷ tokens) = (t ∷ []) ∷ singletons tokens

module _ (fl : Floats) where
  open fl use {Float}

  -- `draws` counts the random numbers that have been drawn.
  pub record PagedEngine : Type 0 where
    pub scheduler : Scheduler
    pub buffers : Buffers fl
    pub draws : ℕ

  -- The locals of step: the engine, all_rids and all_new_tokens.
  pub record Stepping : Type 0 where
    pub engine : PagedEngine
    pub all_rids : List ℕ
    pub all_new_tokens : List ℕ

  module _ (sort : List (Float × ℕ) → List (Float × ℕ)) (draw : ℕ → Float) (to_string : ℕ → List ℕ)
      (tok : TokenizerConfig) (model : Qwen36Model fl) where
    -- submit with the prompt as bytes; `prompt` is the same text as the request keeps it.
    unfoldable pub submit : String → List ℕ → ℕ → ℕ → ℕ → PagedEngine → PagedEngine × ℕ
    unfolding tokenize submit_request
    submit prompt text max_new temperature top_p e =
        let tokens = tokenize tok text in
        let r =
          submit_request prompt (if is_empty tokens then tok.bos_token_id ∷ [] else tokens) max_new
            temperature top_p e.scheduler in
        (record e { scheduler = r.0 }, r.1)

    unfoldable pub submit_tokens : List ℕ → ℕ → ℕ → ℕ → PagedEngine → PagedEngine × ℕ
    unfolding submit_request
    submit_tokens prompt_tokens max_new temperature top_p e =
        let r = submit_request "" prompt_tokens max_new temperature top_p e.scheduler in
        (record e { scheduler = r.0 }, r.1)

    -- run_prefill draws its random number for a prompt that is not empty.
    unfoldable pub prefill_one : Request → Stepping → Stepping
    unfolding run_prefill
    prefill_one req s =
        let e = s.engine in
        let (b, sched) = run_prefill fl sort model (draw e.draws) req e.buffers e.scheduler in
        record s {
          engine = record {
            scheduler = sched;
            buffers = b;
            draws = e.draws + (if is_empty req.prompt_tokens then 0 else 1);
          };
        }

    unfoldable pub decode_one : ℕ → Request → Stepping → Stepping
    unfolding run_decode
    decode_one rid req s =
        let e = s.engine in
        let d = run_decode fl sort model (draw e.draws) req e.buffers e.scheduler.pool in
        record {
          engine = record {
            scheduler = record (e.scheduler) { pool = d.pool };
            buffers = d.buffers;
            draws = e.draws + 1;
          };
          all_rids = s.all_rids ++ (rid ∷ []);
          all_new_tokens = s.all_new_tokens ++ (d.token ∷ []);
        }

    unfoldable pub step_one : ℕ → Bool → Stepping → Stepping
    unfolding prefill_one decode_one get_request
    step_one rid is_prefill s = elim (get_request rid s.engine.scheduler) [
      | none ↦ s
      | some req ↦
          if is_prefill || is_empty req.block_table then prefill_one req s else decode_one rid req s
    ]

    -- The batch has as many flags as ids.
    unfoldable pub step_batch : List ℕ → List Bool → Stepping → Stepping
    unfolding step_one
    step_batch (rid ∷ rids) (is_prefill ∷ flags) s =
        step_batch rids flags (step_one rid is_prefill s)
    step_batch _ _ s = s

    unfoldable pub report : Stepping → PagedEngine
    unfolding report_output singletons
    report s = if is_empty s.all_new_tokens then s.engine else record (s.engine) {
      scheduler = report_output s.all_rids (singletons s.all_new_tokens) s.engine.scheduler;
    }

    unfoldable pub collect_tokens : Scheduler → List ℕ → List ℕ → EngineOutput → EngineOutput
    unfolding decode_token get_request
    collect_tokens sched (rid ∷ rids) (token ∷ tokens) o =
        collect_tokens sched rids tokens (elim (get_request rid sched) [
          | none ↦ o
          | some req ↦ record o {
            request_ids = o.request_ids ++ (rid ∷ []);
            new_token_ids = o.new_token_ids ++ (token ∷ []);
            new_texts = o.new_texts ++ (decode_token to_string tok token ∷ []);
            finished = o.finished ++ ((is_finished req.state || token == eos_token_id) ∷ []);
          }
        ])
    collect_tokens sched _ _ o = o

    unfoldable pub collect_finished : Scheduler → List ℕ → EngineOutput → EngineOutput
    unfolding get_request
    collect_finished sched [] o = o
    collect_finished sched (rid ∷ rids) o =
        collect_finished sched rids (elim (get_request rid sched) [
          | none ↦ o
          | some req ↦ record o {
            request_ids = o.request_ids ++ (rid ∷ []);
            finished = o.finished ++ (true ∷ []);
          }
        ])

    unfoldable pub step : PagedEngine → PagedEngine × EngineOutput
    unfolding schedule step_batch report collect_tokens collect_finished
    step e =
        let (sched, o) = schedule e.scheduler in
        if is_empty o.batch_ids
        then (record e { scheduler = sched }, no_results)
        else let s = step_batch o.batch_ids o.is_prefill (record {
          engine = record e { scheduler = sched };
          all_rids = [];
          all_new_tokens = [];
        }) in
          let e' = report s in
          let out =
            collect_finished e'.scheduler o.finished_requests
              (collect_tokens e'.scheduler s.all_rids s.all_new_tokens no_results) in
          (
            e',
            record out {
              num_prompt_tokens = o.num_prompt_tokens;
              num_generation_tokens = length o.new_token_ids;
            },
          )

    unfoldable pub remove : ℕ → PagedEngine → PagedEngine
    unfolding remove_request
    remove rid e = record e { scheduler = remove_request rid e.scheduler }

  unfoldable pub has_requests : PagedEngine → Bool
  unfolding num_waiting num_running
  has_requests e = ltb 0 (num_waiting e.scheduler) || ltb 0 (num_running e.scheduler)
