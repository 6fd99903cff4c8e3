-- ===== src/Scheduler/Fitting.antt =====
-- The batch of `schedule`: phase 3 against an independent description.
use vllm_cpp.Prelude.{
  ℕ, ◌+◌, ◌-◌, ◌≤◌, ◌<◌, ◌≡◌, map, refl, true, false, ◌&&◌, if◌then◌else◌, Option, none, some, List,
  [], ◌∷◌, ◌++◌, Bool-cases, Option-cases, inl, inr, ltb, leb, arith, length, append-nil,
  append_assoc, sym, ◌∙◌,
}
use vllm_cpp.Prelude.Assoc.{find?}
use vllm_cpp.Request.{Request, get_seq_len}
use vllm_cpp.Scheduler.State.{is_running}
use vllm_cpp.Scheduler.Batch.{
  ScheduleOutput, contains, no_output, Batching, batch_request, batch_one, batch_loop, phase_three,
}
use vllm_cpp.Scheduler.Admit.{Admission}

-- The tokens of a request, if it exists and runs.
unfoldable pub running_len : Option Request → Option ℕ
running_len none = none
running_len (some req) = if is_running req.state then some (get_seq_len req) else none

-- The longest prefix of the running requests that fits in what is left of the token budget. From
-- the first request that does not fit, nothing more is taken.
unfoldable pub fitting : ℕ → List (ℕ × Request) → List ℕ → List (ℕ × ℕ)
unfolding running_len
fitting budget m [] = []
fitting budget m (rid ∷ rids) = elim (running_len (find? rid m)) [
  | none ↦ fitting budget m rids
  | some n ↦ if leb n budget then (rid, n) ∷ fitting (budget - n) m rids else []
]

unfoldable pub sum : List ℕ → ℕ
sum [] = 0
sum (n ∷ ns) = n + sum ns

abbrev pub ids : List (ℕ × ℕ) → List ℕ
ids = map (λ (rid, n). rid)

abbrev pub lens : List (ℕ × ℕ) → List ℕ
lens = map (λ (rid, n). n)

-- Past the budget a round adds nothing.
batch_one_over :
    (max : ℕ) (newly : List ℕ) (m : List (ℕ × Request)) (rid : ℕ) (b : Batching)
    → max < b.total_tokens
    → ((batch_one max newly m rid b).output ≡ b.output)
      × (max < (batch_one max newly m rid b).total_tokens)
unfolding batch_one batch_request
batch_one_over max newly m rid b h = ground arith

batch_loop_over :
    (max : ℕ) (newly : List ℕ) (m : List (ℕ × Request)) (rids : List ℕ) (b : Batching)
    → max < b.total_tokens
    → (batch_loop max newly m rids b).output ≡ b.output
unfolding batch_loop
batch_loop_over max newly m [] b h = refl
batch_loop_over max newly m (rid ∷ rids) b h =
    let one = batch_one_over max newly m rid b h in
    batch_loop_over max newly m rids (batch_one max newly m rid b) one.1 ∙ one.0

-- The output `o'` is `o` with the entries `l` added to each of its lists.
pub record Adds (newly : List ℕ) (o : ScheduleOutput) (l : List (ℕ × ℕ)) (o' : ScheduleOutput)
    : Type 0 where
  pub batch_ids : o'.batch_ids ≡ o.batch_ids ++ ids l
  pub batch_seq_lens : o'.batch_seq_lens ≡ o.batch_seq_lens ++ lens l
  pub batch_block_tables : o'.batch_block_tables ≡ o.batch_block_tables ++ ids l
  pub is_prefill : o'.is_prefill ≡ o.is_prefill ++ map (contains newly) (ids l)

Adds-nil : (newly : List ℕ) (o : ScheduleOutput) → Adds newly o [] o
Adds-nil newly o = record {
  batch_ids = sym (append-nil _);
  batch_seq_lens = sym (append-nil _);
  batch_block_tables = sym (append-nil _);
  is_prefill = sym (append-nil _);
}

contains_lem :
    (newly : List ℕ) (rid : ℕ) → (ltb 0 (length newly) && contains newly rid) ≡ contains newly rid
unfolding contains
contains_lem [] rid = refl
contains_lem (x ∷ newly) rid = ground arith

module _ (max : ℕ) (newly : List ℕ) (m : List (ℕ × Request)) where
  batched_total :
      (rid : ℕ) (req : Request) (b : Batching)
      → (batch_request max newly rid req b).total_tokens ≡ b.total_tokens + get_seq_len req
  unfolding batch_request
  batched_total rid req b = ground arith

  batched_over :
      (rid : ℕ) (req : Request) (b : Batching)
      → ltb max (b.total_tokens + get_seq_len req) ≡ true
      → (batch_request max newly rid req b).output ≡ b.output
  unfolding batch_request
  batched_over rid req b e = rw (e, batch_request) refl

  -- One more entry, then the rest.
  Adds-cons :
      (rid : ℕ) (req : Request) (l : List (ℕ × ℕ)) (b : Batching) (o : ScheduleOutput)
      → ltb max (b.total_tokens + get_seq_len req) ≡ false
      → Adds newly (batch_request max newly rid req b).output l o
      → Adds newly b.output ((rid, get_seq_len req) ∷ l) o
  unfolding batch_request
  Adds-cons rid req l b o e a = record {
    batch_ids = cc (a.batch_ids, e, append_assoc b.output.batch_ids (rid ∷ []) (ids l));
    batch_seq_lens =
        cc (
          a.batch_seq_lens,
          e,
          append_assoc b.output.batch_seq_lens (get_seq_len req ∷ []) (lens l),
        );
    batch_block_tables =
        cc (a.batch_block_tables, e, append_assoc b.output.batch_block_tables (rid ∷ []) (ids l));
    is_prefill = cc (
      a.is_prefill,
      e,
      contains_lem newly rid,
      append_assoc b.output.is_prefill (contains newly rid ∷ []) (map (contains newly) (ids l)),
    );
  }

  running-Adds :
      (rid : ℕ) (req : Request) (rids : List ℕ) (b : Batching)
      → b.total_tokens ≤ max
      → ((b' : Batching)
          → b'.total_tokens ≤ max
          → Adds newly b'.output
              (fitting (max - b'.total_tokens) m rids)
              (batch_loop max newly m rids b').output)
      → Adds newly b.output
          (if leb (get_seq_len req) (max - b.total_tokens)
            then (rid, get_seq_len req) ∷ fitting (max - b.total_tokens - get_seq_len req) m rids
            else [])
          (batch_loop max newly m rids (batch_request max newly rid req b)).output
  running-Adds rid req rids b h ih =
      let n = get_seq_len req in
      let b' = batch_request max newly rid req b in
      elim (Bool-cases (leb n (max - b.total_tokens))) [
        | inl fits ↦
            let in_budget : ltb max (b.total_tokens + n) ≡ false = ground arith in
            let total : b'.total_tokens ≡ b.total_tokens + n = batched_total rid req b in
            let left : max - b'.total_tokens ≡ max - b.total_tokens - n = omega arith in
            rw fits (Adds-cons rid req _ b _ in_budget (rw left at (ih b' (ground arith))))
        | inr over ↦
            let total : b'.total_tokens ≡ b.total_tokens + n = batched_total rid req b in
            let same = batch_loop_over max newly m rids b' (ground arith) in
            rw over (rw (same ∙ batched_over rid req b (ground arith)) (Adds-nil newly b.output))
      ]

  batch_loop-Adds :
      (rids : List ℕ) (b : Batching)
      → b.total_tokens ≤ max
      → Adds newly b.output
          (fitting (max - b.total_tokens) m rids)
          (batch_loop max newly m rids b).output
  unfolding batch_loop fitting batch_one
  batch_loop-Adds [] b h = Adds-nil newly b.output
  batch_loop-Adds (rid ∷ rids) b h = elim (Option-cases (find? rid m)) [
    | inl e ↦ rw (e, fitting, batch_loop, batch_one) (batch_loop-Adds rids b h)
    | inr (req, e) ↦ elim (Bool-cases (is_running req.state)) [
      | inr off ↦
          rw (e, off, fitting, batch_loop, batch_one, running_len) (batch_loop-Adds rids b h)
      | inl on ↦
          rw (e, on, fitting, batch_loop, batch_one, running_len)
            (running-Adds rid req rids b h (batch_loop-Adds rids))
    ]
  ]

sum-fitting :
    (budget : ℕ) (m : List (ℕ × Request)) (rids : List ℕ)
    → sum (lens (fitting budget m rids)) ≤ budget
unfolding fitting sum
sum-fitting budget m [] = omega arith
sum-fitting budget m (rid ∷ rids) = elim (Option-cases (running_len (find? rid m))) [
  | inl e ↦ rw (e, fitting) (sum-fitting budget m rids)
  | inr (n, e) ↦ rw (e, fitting) (ground (arith, sum-fitting (budget - n) m rids))
]

-- The batch is the longest prefix of the running requests whose tokens fit in `max_total_tokens`,
-- in order; each entry carries its request's length and table, and is a prefill exactly when this
-- iteration admitted it. So the batch never holds more tokens than the limit.
pub phase_three_lem :
    (a : Admission)
    → let l = fitting a.sched.max_total_tokens a.sched.requests a.sched.running_ids in
      ((phase_three a).batch_ids ≡ ids l)
      × ((phase_three a).batch_seq_lens ≡ lens l)
      × ((phase_three a).batch_block_tables ≡ ids l)
      × ((phase_three a).is_prefill ≡ map (contains a.newly) (ids l))
      × (sum (phase_three a).batch_seq_lens ≤ a.sched.max_total_tokens)
unfolding phase_three
phase_three_lem a =
    let max = a.sched.max_total_tokens in
    let m = a.sched.requests in
    let w =
      batch_loop-Adds max a.newly m a.sched.running_ids
        (record { total_tokens = 0; output = no_output }) (omega arith) in
    let whole : max - 0 ≡ max = omega arith in
    let l : Adds a.newly no_output (fitting max m a.sched.running_ids) _ = rw whole at w in
    (
      l.batch_ids,
      l.batch_seq_lens,
      l.batch_block_tables,
      l.is_prefill,
      rw l.batch_seq_lens (sum-fitting max m a.sched.running_ids),
    )
