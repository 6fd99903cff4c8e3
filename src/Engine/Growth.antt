-- ===== src/Engine/Growth.antt =====
-- What a step of src/paged_engine.cpp does to the pool besides writing: it takes blocks that are
-- free, and gives none back.
use vllm_cpp.Prelude.{
  ℕ, zero, suc, ◌-◌, ◌≤◌, ltb, is_empty, List, [], ◌∷◌, ◌++◌, length, ℤ, pos, Option, none, some,
  Bool-cases, inl, inr, arith,
}
use vllm_cpp.Prelude.Assoc.{find?}
use vllm_cpp.Float.{Floats}
use vllm_cpp.KvCache.Pool.{BlockPool, alloc, free_count}
use vllm_cpp.KvCache.Pool.Refs.{refs}
use vllm_cpp.KvCache.Pool.Effects.{count_id}
use vllm_cpp.KvCache.Pool.History.{alloc_cases}
use vllm_cpp.KvCache.Manager.{alloc_loop, alloc_blocks}
use vllm_cpp.KvCache.Manager.Ownership.{IsExclusive, alloc-IsExclusive, alloc_blocks-Takes}
use vllm_cpp.Request.{Request, get_num_blocks}
use vllm_cpp.Scheduler.State.{Scheduler}
use vllm_cpp.Scheduler.Calls.{grow_table}
use vllm_cpp.Engine.Model.{Qwen36Model, Buffers}
use vllm_cpp.Engine.Prefill.{prefill_table, prefill_prompt, first_token_copy, run_prefill}
use vllm_cpp.Engine.Cache.{OnlyWrites}
use vllm_cpp.Engine.Isolation.{prefill_layers-OnlyWrites}

pub record Grows (p p' : BlockPool) : Type 0 where
  pub exclusive : IsExclusive p'
  pub more_refs : (j : ℕ) → refs p.blocks j ≤ refs p'.blocks j
  pub fewer_free : free_count p' ≤ free_count p

pub Grows-refl : (p : BlockPool) → IsExclusive p → Grows p p
Grows-refl p x = record { exclusive = x; more_refs = λ j. omega arith; fewer_free = omega arith }

pub Grows-trans : (p q r : BlockPool) → Grows p q → Grows q r → Grows p r
Grows-trans p q r a b = record {
  exclusive = b.exclusive;
  more_refs = λ j. omega (arith, a.more_refs j, b.more_refs j);
  fewer_free = omega (arith, a.fewer_free, b.fewer_free);
}

pub OnlyWrites-Grows :
    (table : List ℤ) (p p' : BlockPool) → IsExclusive p → OnlyWrites table p p' → Grows p p'
OnlyWrites-Grows table p p' x w = record {
  exclusive = record {
    well_formed = record { consistent = w.consistent x.well_formed.consistent };
    at_most_one = λ j. omega (arith, w.same_refs j, x.at_most_one j);
  };
  more_refs = λ j. omega (arith, w.same_refs j);
  fewer_free = omega (arith, w.same_free);
}

alloc_loop_free :
    (n : ℕ) (out : List ℤ) (p : BlockPool)
    → IsExclusive p
    → free_count (alloc_loop n out p).pool ≤ free_count p
unfolding alloc_loop
alloc_loop_free zero out p x = omega arith
alloc_loop_free (suc n) out p x = elim (alloc_cases p x.well_formed) [
  | inl r ↦ rw (r.0, alloc_loop) (rw r.1 (omega arith))
  | inr (i, g) ↦
      rw (g.id, alloc_loop)
        (omega (
          arith,
          g.one_fewer,
          alloc_loop_free n (out ++ (pos i ∷ [])) (alloc p).1 (alloc-IsExclusive p x),
        ))
]

pub alloc_blocks-Grows : (n : ℕ) (p : BlockPool) → IsExclusive p → Grows p (alloc_blocks n p).pool
unfolding alloc_blocks count_id
alloc_blocks-Grows n p x =
    let t = alloc_blocks-Takes n p x in
    record {
      exclusive = t.exclusive;
      more_refs = λ j. omega (arith, t.books j);
      fewer_free = alloc_loop_free n [] p x;
    }

pub grow_table-Grows :
    (req : Request) (p : BlockPool) → IsExclusive p → Grows p (grow_table req p).1
unfolding grow_table
grow_table-Grows req p x =
    let n = get_num_blocks req - length req.block_table in
    let g = alloc_blocks-Grows n p x in
    elim (Bool-cases (ltb (length req.block_table) (get_num_blocks req))) [
      | inl e ↦ elim (Bool-cases (alloc_blocks n p).done) [
        | inl d ↦ rw (e, d, grow_table) g
        | inr d ↦ rw (e, d, grow_table) g
      ]
      | inr e ↦ rw (e, grow_table) (Grows-refl p x)
    ]

pub prefill_table-Grows :
    (req : Request) (p : BlockPool) → IsExclusive p → Grows p (prefill_table req p).1
unfolding prefill_table
prefill_table-Grows req p x = elim (Bool-cases (is_empty req.block_table)) [
  | inl e ↦ rw (e, prefill_table) (alloc_blocks-Grows (get_num_blocks req) p x)
  | inr e ↦ rw (e, prefill_table) (Grows-refl p x)
]

module _ (fl : Floats) where
  open fl use {Float}

  module _ (sort : List (Float × ℕ) → List (Float × ℕ)) (model : Qwen36Model fl) where
    prefill_prompt-Grows :
        (req : Request) (b : Buffers fl) (p : BlockPool)
        → IsExclusive p
        → Grows p (prefill_prompt fl sort model req b p).pool
    unfolding prefill_prompt
    prefill_prompt-Grows req b p x =
        let g = prefill_table-Grows req p x in
        Grows-trans p (prefill_table req p).1 _ g (
          OnlyWrites-Grows (prefill_table req p).0 (prefill_table req p).1 _ g.exclusive
            (prefill_layers-OnlyWrites fl sort model model.layers 0 _ (length req.prompt_tokens) _))

    pub copy-Grows :
        (r : Float) (logits : List Float) (copy : Option Request) (p : BlockPool)
        → IsExclusive p
        → Grows p (elim copy as (λ _. BlockPool) [
          | none ↦ p
          | some c ↦ (first_token_copy fl sort model r logits c p).1
        ])
    unfolding first_token_copy
    copy-Grows r logits none p x = Grows-refl p x
    copy-Grows r logits (some c) p x = grow_table-Grows _ p x

    pub run_prefill-Grows :
        (r : Float) (req : Request) (b : Buffers fl) (s : Scheduler)
        → IsExclusive s.pool
        → Grows s.pool (run_prefill fl sort model r req b s).1.pool
    unfolding run_prefill
    run_prefill-Grows r req b s x = elim (Bool-cases (is_empty req.prompt_tokens)) [
      | inl e ↦ rw (e, run_prefill) (Grows-refl s.pool x)
      | inr e ↦
          let g = prefill_prompt-Grows req b s.pool x in
          rw (e, run_prefill)
            (Grows-trans s.pool _ _ g
              (copy-Grows r _ (find? req.request_id s.requests) _ g.exclusive))
    ]
