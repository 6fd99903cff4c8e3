-- ===== src/Scheduler/Ownership/Outcomes.antt =====
-- What the helpers on one request do to the references: allocate, restore, free, grow.
use vllm_cpp.Prelude.{
  ℕ, ◌+◌, ◌-◌, ◌==◌, ◌≤◌, ◌≡◌, refl, Bool, true, false, if◌then◌else◌, List, [], ◌∷◌, ℤ, arith,
  length, Bool-cases, inl, inr, ltb,
}
use vllm_cpp.KvCache.Pool.{BlockPool, free_count}
use vllm_cpp.KvCache.Pool.Refs.{refs}
use vllm_cpp.KvCache.Pool.Effects.{count_id, count_id-append}
use vllm_cpp.KvCache.Manager.{alloc_blocks, free_blocks}
use vllm_cpp.KvCache.Manager.Ownership.{
  IsExclusive, alloc_blocks-Takes, refs-copy_blocks, copy_blocks-IsExclusive,
}
use vllm_cpp.Request.{Request, get_num_blocks}
use vllm_cpp.Scheduler.State.{
  Outcome, allocate_request, restore_request, copy_checkpoint, free_request_blocks, is_empty,
  is_running,
}
use vllm_cpp.Scheduler.Calls.{grow_table}

-- How often a request's table names a block.
abbrev pub holds : ℕ → Request → ℕ
holds j req = count_id j req.block_table

-- A request that holds no block and is not in the batch.
pub record IsIdle (req : Request) : Type 0 where
  pub not_running : is_running req.state ≡ false
  pub no_blocks : req.block_table ≡ []

-- The references that a call adds are in the request's table.
pub record IsBalanced (req : Request) (p : BlockPool) (req' : Request) (p' : BlockPool)
    : Type 0 where
  pub exclusive : IsExclusive p'
  pub books : (j : ℕ) → refs p'.blocks j + holds j req ≡ refs p.blocks j + holds j req'

pub record IsSound (req : Request) (p : BlockPool) (o : Outcome) : Type 0 where
  pub balanced : IsBalanced req p o.request o.pool
  pub refused : o.done ≡ false → o.request ≡ req

IsBalanced-refl : (req : Request) (p : BlockPool) → IsExclusive p → IsBalanced req p req p
IsBalanced-refl req p x = record { exclusive = x; books = λ j. refl }

pub holds_none : (req : Request) → req.block_table ≡ [] → (j : ℕ) → holds j req ≡ 0
unfolding count_id
holds_none req h j = rw h

-- With enough free blocks and nothing held so far, every block taken is in the request's table.
pub allocate_request-IsSound :
    (req : Request) (p : BlockPool)
    → IsExclusive p
    → req.block_table ≡ []
    → get_num_blocks req ≤ free_count p
    → IsSound req p (allocate_request req p)
unfolding allocate_request count_id
allocate_request-IsSound req p x none_held fits =
    let t = alloc_blocks-Takes (get_num_blocks req) p x in
    elim (Bool-cases (get_num_blocks req == 0)) [
      | inl e ↦
          rw (e, allocate_request)
            (record { balanced = IsBalanced-refl req p x; refused = λ _. refl })
      | inr e ↦
          rw (e, t.enough fits, allocate_request)
            (record {
              balanced = record {
                exclusive = t.exclusive;
                books = λ j. omega (arith, t.books j, holds_none req none_held j);
              };
              refused = λ h. absurd (cc);
            })
    ]

IsSound-if :
    {req : Request} {p : BlockPool} (b : Bool) (o o' : Outcome)
    → IsSound req p o
    → IsSound req p o'
    → IsSound req p (if b then o else o')
IsSound-if true o o' s s' = s
IsSound-if false o o' s s' = s'

copy_checkpoint-IsSound :
    (req : Request) (p : BlockPool) (o : Outcome)
    → IsSound req p o
    → IsSound req p (copy_checkpoint o)
unfolding copy_checkpoint
copy_checkpoint-IsSound req p o s =
    let src = o.request.checkpoint_blocks in
    let dst = o.request.block_table in
    IsSound-if _ _ _
      (record {
        balanced = record {
          exclusive = copy_blocks-IsExclusive src dst o.pool s.balanced.exclusive;
          books = λ j. omega (arith, s.balanced.books j, refs-copy_blocks src dst o.pool j);
        };
        refused = s.refused;
      })
      s

pub restore_request-IsSound :
    (req : Request) (p : BlockPool)
    → IsExclusive p
    → req.block_table ≡ []
    → get_num_blocks req ≤ free_count p
    → IsSound req p (restore_request req p)
unfolding restore_request
restore_request-IsSound req p x none_held fits =
    let s = allocate_request-IsSound req p x none_held fits in
    let o = allocate_request req p in
    IsSound-if (is_empty req.checkpoint_blocks) (record { done = false; request = req; pool = p }) _
      (record { balanced = IsBalanced-refl req p x; refused = λ _. refl })
      (IsSound-if o.done (copy_checkpoint o) o (copy_checkpoint-IsSound req p o s) s)

-- Freeing gives back the request's blocks, and clears its table and its checkpoint.
pub free_request_blocks_lem :
    (req : Request) (p : BlockPool)
    → free_request_blocks req p
      ≡ (record req { block_table = []; checkpoint_blocks = [] }, free_blocks req.block_table p)
unfolding free_request_blocks free_blocks
free_request_blocks_lem req p = go req.block_table req.checkpoint_blocks refl refl
  where
    go :
        (t c : List ℤ)
        → req.block_table ≡ t
        → req.checkpoint_blocks ≡ c
        → free_request_blocks req p
          ≡ (record req { block_table = []; checkpoint_blocks = [] }, free_blocks req.block_table p)
    go [] [] et ec = ground (arith)
    go [] (c ∷ cs) et ec = ground arith
    go (t ∷ ts) [] et ec = ground arith
    go (t ∷ ts) (c ∷ cs) et ec = ground arith

-- What `grow_table` takes from the pool and then forgets.
unfoldable pub lost : Request → BlockPool → List ℤ
lost req p =
    let r = alloc_blocks (get_num_blocks req - length req.block_table) p in
    if ltb (length req.block_table) (get_num_blocks req) then if r.done then [] else r.out else []

pub grow_table_lem :
    (req : Request) (p : BlockPool)
    → IsExclusive p
    → IsExclusive (grow_table req p).1
      × ((j : ℕ)
          → refs (grow_table req p).1.blocks j + holds j req
            ≡ refs p.blocks j + holds j (grow_table req p).0 + count_id j (lost req p))
unfolding grow_table lost count_id
grow_table_lem req p x =
    let n = get_num_blocks req - length req.block_table in
    let t = alloc_blocks-Takes n p x in
    elim (Bool-cases (ltb (length req.block_table) (get_num_blocks req))) [
      | inl e ↦ elim (Bool-cases (alloc_blocks n p).done) [
        | inl d ↦
            rw (e, d, grow_table, lost)
              (
                t.exclusive,
                λ j.
                    omega
                      (arith, t.books j, count_id-append j req.block_table (alloc_blocks n p).out),
              )
        | inr d ↦ rw (e, d, grow_table, lost) (t.exclusive, λ j. omega (arith, t.books j))
      ]
      | inr e ↦ rw (e, grow_table, lost) (x, λ j. omega arith)
    ]
