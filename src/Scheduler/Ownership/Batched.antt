-- ===== src/Scheduler/Ownership/Batched.antt =====
-- The requests of the batch that `schedule` of src/scheduler.cpp returns do not wait.
use vllm_cpp.Prelude.{
  ℕ, ◌+◌, ◌-◌, ◌≤◌, leb, List, [], ◌∷◌, All, Option-cases, Bool-cases, ◌≡◌, refl, inl, inr, arith,
  ◌∙◌,
}
use vllm_cpp.Prelude.Assoc.{find?}
use vllm_cpp.Prelude.Occurs.{occurs}
use vllm_cpp.Request.{Request}
use vllm_cpp.Scheduler.State.{Scheduler}
use vllm_cpp.Scheduler.Admit.{phase_one, phase_two, write_back}
use vllm_cpp.Scheduler.Batch.{Retiring, retire, retire_one, retire_loop, phase_four, schedule}
use vllm_cpp.Scheduler.Fitting.{running_len, fitting, ids, phase_three_lem}
use vllm_cpp.Scheduler.Ownership.Books.{Invariant}
use vllm_cpp.Scheduler.Ownership.Admission.{phase_one_loop-Invariant}
use vllm_cpp.Scheduler.Ownership.Retirement.{phase_two-Invariant}

retire_one-waiting :
    (rid : ℕ) (r : Retiring) → (retire_one rid r).sched.waiting_ids ≡ r.sched.waiting_ids
unfolding retire_one retire write_back
retire_one-waiting rid r = ground arith

retire_loop-waiting :
    (rids : List ℕ) (r : Retiring) → (retire_loop rids r).sched.waiting_ids ≡ r.sched.waiting_ids
unfolding retire_loop
retire_loop-waiting [] r = refl
retire_loop-waiting (rid ∷ rids) r =
    retire_loop-waiting rids (retire_one rid r) ∙ retire_one-waiting rid r

All-fitting :
    (P : ℕ → Type 0) (budget : ℕ) (m : List (ℕ × Request)) (rids : List ℕ)
    → All P rids
    → All P (ids (fitting budget m rids))
unfolding fitting
All-fitting P budget m [] a = tt
All-fitting P budget m (rid ∷ rids) a = elim (Option-cases (running_len (find? rid m))) [
  | inl e ↦ rw (e, fitting) (All-fitting P budget m rids a.1)
  | inr (n, e) ↦ elim (Bool-cases (leb n budget)) [
    | inl fits ↦ rw (e, fits, fitting) (a.0, All-fitting P (budget - n) m rids a.1)
    | inr over ↦ rw (e, over, fitting) tt
  ]
]

-- Ids that stand in a list with no id of `waiting`.
quiet :
    (waiting running rids : List ℕ)
    → ((rid : ℕ) → occurs rid waiting + occurs rid running ≤ 1)
    → ((rid : ℕ) → occurs rid rids ≤ occurs rid running)
    → All (λ rid. occurs rid waiting ≡ 0) rids
unfolding occurs
quiet waiting running [] once part = tt
quiet waiting running (rid ∷ rids) once part = (
  let o = once rid in let h = part rid in ground arith,
  quiet waiting running rids once (λ i. omega (arith, part i)),
)

pub schedule-quiet :
    (leaked : ℕ → ℕ) (s : Scheduler)
    → Invariant leaked s
    → All (λ rid. occurs rid (schedule s).0.waiting_ids ≡ 0) (schedule s).1.batch_ids
unfolding schedule phase_one phase_four
schedule-quiet leaked s v =
    let a = phase_two (phase_one s) in
    let w = phase_two-Invariant leaked (phase_one s) (phase_one_loop-Invariant leaked s v) in
    rw
      (
        (phase_three_lem a).0,
        retire_loop-waiting a.sched.running_ids
            (record { sched = a.sched; next_running = []; reported = [] }),
      )
      (All-fitting (λ rid. occurs rid a.sched.waiting_ids ≡ 0) _ _ _
        (quiet a.sched.waiting_ids a.sched.running_ids a.sched.running_ids w.queues.once
          (λ i. omega arith)))
