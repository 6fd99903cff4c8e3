-- ===== src/Scheduler/Ownership/Enough.antt =====
-- How many blocks `Scheduler::preempt_requests` frees.
use mathlib.Core.List.{reverse, reverse-append, tail-eq_of_cons-eq}
use vllm_cpp.Prelude.{
  ℕ, ◌==◌, ◌≤◌, ◌<◌, ◌≡◌, refl, sym, ◌∙◌, ◌⊎◌, true, false, some, List, [], ◌∷◌, ◌++◌, arith,
  Bool-cases, Option-cases, inl, inr, ltb, subst, ==→eq, some-injective,
}
use vllm_cpp.Prelude.Assoc.{find?, insert, find?-insert}
use vllm_cpp.Prelude.Occurs.{occurs, occurs-cons, occurs-reverse}
use vllm_cpp.Request.{Request}
use vllm_cpp.Scheduler.State.{Scheduler, is_running}
use vllm_cpp.Scheduler.Admit.{
  Preemption, evict, preempt_one, preempt_loop, write_back, needed_of, total_needed,
}
use vllm_cpp.Scheduler.Ownership.Eviction.{
  Evicting, gone_request, evict_lem, not_victim, preempt_one-Evicting,
}

total_needed-insert :
    (rid : ℕ) (req : Request) (m : List (ℕ × Request)) (rids : List ℕ)
    → occurs rid rids ≡ 0
    → total_needed (insert rid req m) rids ≡ total_needed m rids
unfolding total_needed
total_needed-insert rid req m [] h = refl
total_needed-insert rid req m (x ∷ rids) h =
    let apart : (rid == x) ≡ false = grind (arith, occurs-cons rid x rids) in
    let rest = total_needed-insert rid req m rids (ground (arith, occurs-cons rid x rids)) in
    rw (find?-insert rid x req m) (rw apart (omega (arith, rest)))

-- No stored request of this id runs.
abbrev pub IsStill : ℕ → Preemption → Type 0
IsStill i v = (req : Request) → find? i v.sched.requests ≡ some req → is_running req.state ≡ false

-- The victims, the last one first, and the blocks that they had: without the last one there were
-- not enough.
pub record Tally (needed : ℕ) (v : Preemption) : Type 0 where
  pub counted : total_needed v.sched.requests (reverse v.victims) ≡ v.freed
  pub spare :
      (x : ℕ) (rest : List ℕ)
      → reverse v.victims ≡ x ∷ rest
      → total_needed v.sched.requests rest < needed

module _ (leaked : ℕ → ℕ) (s : Scheduler) (needed : ℕ) where
  evict-Tally :
      (rid : ℕ) (req : Request) (v : Preemption)
      → Evicting leaked s v
      → Tally needed v
      → v.freed < needed
      → find? rid v.sched.requests ≡ some req
      → is_running req.state ≡ true
      → Tally needed (evict rid req v)
  unfolding write_back total_needed needed_of
  evict-Tally rid req v w t few at active =
      let fresh = not_victim leaked s rid req v w at active in
      let m = insert rid (gone_request req) v.sched.requests in
      let same : total_needed m (reverse v.victims)
          ≡ total_needed v.sched.requests (reverse v.victims) =
        total_needed-insert rid (gone_request req) v.sched.requests (reverse v.victims)
          (omega (arith, fresh, occurs-reverse rid v.victims)) in
      let order : reverse (v.victims ++ rid ∷ []) ≡ rid ∷ reverse v.victims =
        reverse-append v.victims (rid ∷ []) in
      let here : find? rid m ≡ some (gone_request req) =
        ground (arith, find?-insert rid rid (gone_request req) v.sched.requests) in
      rw (evict_lem rid req v) (record {
        counted = rw order (rw here (omega (arith, same, t.counted)));
        spare = λ x rest e.
            subst (λ xs. total_needed m xs < needed) (tail-eq_of_cons-eq (sym order ∙ e))
              (omega (arith, same, t.counted, few));
      })

  preempt_one-Tally :
      (rid : ℕ) (v : Preemption)
      → Evicting leaked s v
      → Tally needed v
      → Tally needed (preempt_one needed rid v)
  unfolding preempt_one
  preempt_one-Tally rid v w t = elim (Bool-cases (ltb v.freed needed)) [
    | inr over ↦ rw (over, preempt_one) t
    | inl more ↦ elim (Option-cases (find? rid v.sched.requests)) [
      | inl e ↦ rw (more, e, preempt_one) t
      | inr (req, e) ↦ elim (Bool-cases (is_running req.state)) [
        | inl active ↦
            rw (more, e, active, preempt_one) (evict-Tally rid req v w t (ground arith) e active)
        | inr other ↦ rw (more, e, other, preempt_one) t
      ]
    ]
  ]

  pub preempt_loop-Tally :
      (rids : List ℕ) (v : Preemption)
      → Evicting leaked s v
      → Tally needed v
      → Tally needed (preempt_loop needed rids v)
  unfolding preempt_loop
  preempt_loop-Tally [] v w t = t
  preempt_loop-Tally (rid ∷ rids) v w t =
      preempt_loop-Tally rids (preempt_one needed rid v)
        (preempt_one-Evicting leaked s needed rid v w) (preempt_one-Tally rid v w t)

-- A round leaves a request that does not run as it is, and the request that it looks at does not run
-- afterwards, or there are enough blocks.
module _ (needed : ℕ) where
  evict-IsStill :
      (i rid : ℕ) (req : Request) (v : Preemption)
      → ((rid == i) ≡ true) ⊎ IsStill i v
      → IsStill i (evict rid req v)
  unfolding write_back
  evict-IsStill i rid req v h = rw (evict_lem rid req v) (λ r e. elim (Bool-cases (rid == i)) [
    | inl same ↦
        let now : gone_request req ≡ r =
          some-injective _ _
            (ground (arith, find?-insert rid i (gone_request req) v.sched.requests)) in
        subst (λ (x : Request). is_running x.state ≡ false) now refl
    | inr apart ↦ elim h [
      | inl same ↦ absurd (cc)
      | inr still ↦ still r (ground (arith, find?-insert rid i (gone_request req) v.sched.requests))
    ]
  ])

  preempt_one-IsStill :
      (i rid : ℕ) (v : Preemption) → IsStill i v → IsStill i (preempt_one needed rid v)
  unfolding preempt_one
  preempt_one-IsStill i rid v h = elim (Bool-cases (ltb v.freed needed)) [
    | inr over ↦ rw (over, preempt_one) h
    | inl more ↦ elim (Option-cases (find? rid v.sched.requests)) [
      | inl e ↦ rw (more, e, preempt_one) h
      | inr (req, e) ↦ elim (Bool-cases (is_running req.state)) [
        | inl active ↦ rw (more, e, active, preempt_one) (evict-IsStill i rid req v (inr h))
        | inr other ↦ rw (more, e, other, preempt_one) h
      ]
    ]
  ]

  preempt_loop-IsStill :
      (i : ℕ) (rids : List ℕ) (v : Preemption)
      → IsStill i v
      → IsStill i (preempt_loop needed rids v)
  unfolding preempt_loop
  preempt_loop-IsStill i [] v h = h
  preempt_loop-IsStill i (rid ∷ rids) v h =
      preempt_loop-IsStill i rids (preempt_one needed rid v) (preempt_one-IsStill i rid v h)

  preempt_one-freed : (rid : ℕ) (v : Preemption) → v.freed ≤ (preempt_one needed rid v).freed
  unfolding preempt_one evict
  preempt_one-freed rid v = ground arith

  preempt_loop-freed :
      (rids : List ℕ) (v : Preemption) → v.freed ≤ (preempt_loop needed rids v).freed
  unfolding preempt_loop
  preempt_loop-freed [] v = omega arith
  preempt_loop-freed (rid ∷ rids) v =
      omega (arith, preempt_one-freed rid v, preempt_loop-freed rids (preempt_one needed rid v))

  preempt_one-looked :
      (rid : ℕ) (v : Preemption) → (needed ≤ v.freed) ⊎ IsStill rid (preempt_one needed rid v)
  unfolding preempt_one
  preempt_one-looked rid v = elim (Bool-cases (ltb v.freed needed)) [
    | inr over ↦ inl (ground arith)
    | inl more ↦ elim (Option-cases (find? rid v.sched.requests)) [
      | inl e ↦ inr (rw (more, e, preempt_one) (λ r at. absurd (cc)))
      | inr (req, e) ↦ elim (Bool-cases (is_running req.state)) [
        | inl active ↦
            inr
              (rw (more, e, active, preempt_one) (evict-IsStill rid rid req v (inl (ground arith))))
        | inr other ↦ inr (
            rw (more, e, other, preempt_one)
              (λ r at.
                subst (λ (x : Request). is_running x.state ≡ false)
                  (some-injective _ _ (sym e ∙ at)) other))
      ]
    ]
  ]

  pub preempt_loop-enough :
      (rids : List ℕ) (v : Preemption)
      → (needed ≤ (preempt_loop needed rids v).freed)
        ⊎ ((i : ℕ) → 0 < occurs i rids → IsStill i (preempt_loop needed rids v))
  unfolding preempt_loop occurs
  preempt_loop-enough [] v = inr (λ i h. elim h [ ])
  preempt_loop-enough (rid ∷ rids) v =
      let v' : Preemption = preempt_one needed rid v in
      elim (preempt_loop-enough rids v') [
        | inl e ↦ inl e
        | inr g ↦ elim (preempt_one-looked rid v) [
          | inl over ↦ inl (omega (arith, preempt_one-freed rid v, preempt_loop-freed rids v'))
          | inr still ↦ inr (λ i h. elim (Bool-cases (rid == i)) [
            | inl same ↦
                subst (λ k. IsStill k (preempt_loop needed rids v')) (==→eq rid i same)
                  (preempt_loop-IsStill rid rids v' still)
            | inr apart ↦ g i (ground arith)
          ])
        ]
      ]
