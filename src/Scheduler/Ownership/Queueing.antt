-- ===== src/Scheduler/Ownership/Queueing.antt =====
-- Removing an id from a queue, and putting victims back.
use mathlib.Core.List.{reverse, reverse-cons}
use vllm_cpp.Prelude.{
  ℕ, ◌==◌, ◌<◌, ◌≡◌, refl, ap, sym, ◌∙◌, false, inl, inr, Bool-cases, append_assoc, if◌then◌else◌,
  List, [], ◌∷◌, ◌++◌, arith,
}
use vllm_cpp.Prelude.Occurs.{occurs}
use vllm_cpp.Scheduler.State.{Scheduler}
use vllm_cpp.Scheduler.Admit.{remove_id, requeue}

-- Every occurrence goes, and nothing else.
pub occurs-remove_id :
    (a rid : ℕ) (xs : List ℕ) → occurs a (remove_id rid xs) ≡ (if rid == a then 0 else occurs a xs)
unfolding occurs remove_id
occurs-remove_id a rid [] = ground arith
occurs-remove_id a rid (x ∷ xs) = ground (arith, occurs-remove_id a rid xs)

-- What requeue does to the queues: the victims go to the front one after another.
pub requeue-waiting :
    (vs : List ℕ) (s : Scheduler) → (requeue vs s).waiting_ids ≡ reverse vs ++ s.waiting_ids
unfolding requeue
requeue-waiting [] s = refl
requeue-waiting (v ∷ vs) s =
    requeue-waiting vs _
    ∙ sym (
        ap (λ r. r ++ s.waiting_ids) (reverse-cons v vs)
        ∙ append_assoc (reverse vs) (v ∷ []) s.waiting_ids)

pub requeue-requests : (vs : List ℕ) (s : Scheduler) → (requeue vs s).requests ≡ s.requests
unfolding requeue
requeue-requests [] s = refl
requeue-requests (v ∷ vs) s = requeue-requests vs _

requeue-gone :
    (a : ℕ) (vs : List ℕ) (s : Scheduler)
    → occurs a s.running_ids ≡ 0
    → occurs a (requeue vs s).running_ids ≡ 0
unfolding requeue
requeue-gone a [] s h = h
requeue-gone a (v ∷ vs) s h =
    requeue-gone a vs _ (ground (arith, occurs-remove_id a v s.running_ids))

pub requeue-victim :
    (a : ℕ) (vs : List ℕ) (s : Scheduler)
    → 0 < occurs a vs
    → occurs a (requeue vs s).running_ids ≡ 0
unfolding requeue occurs
requeue-victim a [] s h = elim h [ ]
requeue-victim a (v ∷ vs) s h = elim (Bool-cases (v == a)) [
  | inl e ↦ requeue-gone a vs _ (rw (occurs-remove_id a v s.running_ids) (rw e refl))
  | inr e ↦ requeue-victim a vs _ (ground arith)
]

pub requeue-other :
    (a : ℕ) (vs : List ℕ) (s : Scheduler)
    → occurs a vs ≡ 0
    → occurs a (requeue vs s).running_ids ≡ occurs a s.running_ids
unfolding requeue occurs
requeue-other a [] s h = refl
requeue-other a (v ∷ vs) s h =
    let apart : (v == a) ≡ false = ground arith in
    requeue-other a vs _ (ground arith) ∙ rw (occurs-remove_id a v s.running_ids) (rw apart refl)
