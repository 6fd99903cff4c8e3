-- ===== src/Scheduler/Checkpoints.antt =====
-- A preempted request keeps no checkpoint: `preempt_requests` saves the block ids and clears them
-- in its next call, so `restore_request` has nothing to restore.
use vllm_cpp.Prelude.{ℕ, ◌≡◌, refl, false, some, List, [], arith, ◌∙◌}
use vllm_cpp.Prelude.Assoc.{find?, AllValues-find?}
use vllm_cpp.Config.{KvDtype}
use vllm_cpp.KvCache.Pool.{BlockPool}
use vllm_cpp.Request.{Request}
use vllm_cpp.Scheduler.State.{
  Outcome, new_scheduler, allocate_request, restore_request, copy_checkpoint,
}
use vllm_cpp.Scheduler.Calls.{SchedulerCall, calls, new_request, take_tokens, grow_table}
use vllm_cpp.Scheduler.Everywhere.{IsStable, calls-Everywhere}

abbrev HasNoCheckpoint : Request → Type 0
HasNoCheckpoint req = req.checkpoint_blocks ≡ []

allocate_request-checkpoint :
    (req : Request) (p : BlockPool)
    → (allocate_request req p).request.checkpoint_blocks ≡ req.checkpoint_blocks
unfolding allocate_request
allocate_request-checkpoint req p = ground arith

copy_checkpoint-request : (o : Outcome) → (copy_checkpoint o).request ≡ o.request
unfolding copy_checkpoint
copy_checkpoint-request o = ground arith

restore_request-checkpoint :
    (req : Request) (p : BlockPool)
    → (restore_request req p).request.checkpoint_blocks ≡ req.checkpoint_blocks
unfolding restore_request
restore_request-checkpoint req p =
    ground
      (arith, allocate_request-checkpoint req p, copy_checkpoint-request (allocate_request req p))

grow_table-checkpoint :
    (req : Request) (p : BlockPool) → (grow_table req p).0.checkpoint_blocks ≡ req.checkpoint_blocks
unfolding grow_table
grow_table-checkpoint req p = ground arith

HasNoCheckpoint-stable : IsStable HasNoCheckpoint
unfolding new_request take_tokens
HasNoCheckpoint-stable = record {
  submitted = λ id prompt tokens n t p. refl;
  allocated = λ req p h. allocate_request-checkpoint req p ∙ h;
  restored = λ req p h. restore_request-checkpoint req p ∙ h;
  evicted = λ req h. refl;
  ended = λ req h. refl;
  reported = λ req tokens p h. grow_table-checkpoint (take_tokens tokens req) p ∙ h;
}

-- In every state that a new scheduler reaches, `restore_request` on any of its requests fails
-- and changes nothing, whatever the pool holds: what a preempted request had computed is lost.
pub calls-restore_request :
    (n t l d g c : ℕ) (dtype : KvDtype) (cs : List SchedulerCall) (rid : ℕ) (req : Request)
    (p : BlockPool)
    → find? rid (calls cs (new_scheduler n t l d g c dtype)).requests ≡ some req
    → restore_request req p ≡ record { done = false; request = req; pool = p }
unfolding restore_request new_scheduler
calls-restore_request n t l d g c dtype cs rid req p at =
    let s0 = new_scheduler n t l d g c dtype in
    let none_kept =
      AllValues-find? HasNoCheckpoint rid (calls cs s0).requests
        (calls-Everywhere HasNoCheckpoint HasNoCheckpoint-stable cs s0 tt) at in
    rw (none_kept, restore_request) refl
