-- ===== src/KvCache/Pool/History.antt =====
-- What a pool promises over any history of calls.
use vllm_cpp.Prelude.{
  ℕ, zero, suc, ◌+◌, ◌==◌, ◌≡◌, refl, false, if◌then◌else◌, Option, none, some, List, [], ◌∷◌,
  arith, get_elem?, length, Option-cases, ◌⊎◌, inl, inr, ℤ, pos, negsuc, below, All, All-modify,
  All-modify_at, All-map, length-modify,
}
use vllm_cpp.KvCache.Pool.{
  KvsBlock, BlockPool, find_free, take_block, free_block, deref_block, ref_block, alloc, copy_at,
  copy_block, reset_block, change_block, free_count, PoolCall, call_alloc, call_reset, call_free,
  call_ref, call_deref, call_copy, call, calls, new_pool, new_blocks, KvDtype,
}
use vllm_cpp.KvCache.Pool.Find.{IsFirstFree, find_free-some, find_free-none, count_free-take_block}
use vllm_cpp.KvCache.Pool.Refs.{refs, IsConsistent, refs-take, refs_free}

pub record IsWellFormed (p : BlockPool) : Type 0 where
  pub consistent : All IsConsistent p.blocks

-- Only a block that somebody holds may be shared.
abbrev pub IsLegal : PoolCall → BlockPool → Type 0
IsLegal (call_ref id) p =
    (i : ℕ) (b : KvsBlock)
    → below id (length p.blocks) ≡ some i
    → get_elem? p.blocks i ≡ some b
    → b.free ≡ false
IsLegal _ p = Unit

abbrev pub AreLegal : List PoolCall → BlockPool → Type 0
AreLegal [] p = Unit
AreLegal (c ∷ cs) p = IsLegal c p × AreLegal cs (call c p)

free_block-IsConsistent : (b : KvsBlock) → IsConsistent b → IsConsistent (free_block b)
free_block-IsConsistent b h = ground arith

deref_block-IsConsistent : (b : KvsBlock) → IsConsistent b → IsConsistent (deref_block b)
deref_block-IsConsistent b h = ground arith

ref_block-IsConsistent : (b : KvsBlock) → b.free ≡ false → IsConsistent (ref_block b)
ref_block-IsConsistent b h = ground arith

change_block-IsWellFormed :
    (f : KvsBlock → KvsBlock) (id : ℤ) (p : BlockPool)
    → ((i : ℕ) (b : KvsBlock)
        → below id (length p.blocks) ≡ some i
        → get_elem? p.blocks i ≡ some b
        → IsConsistent b
        → IsConsistent (f b))
    → IsWellFormed p
    → IsWellFormed (change_block f id p)
change_block-IsWellFormed f id p keep w = elim (Option-cases (below id (length p.blocks))) [
  | inl e ↦ rw (e, change_block) w
  | inr (i, e) ↦
      rw (e, change_block)
        (record {
          consistent = All-modify_at IsConsistent f p.blocks i (λ b g. keep i b e g) w.consistent;
        })
]

pub alloc-IsWellFormed : (p : BlockPool) → IsWellFormed p → IsWellFormed (alloc p).1
unfolding alloc
alloc-IsWellFormed p w = elim (Option-cases (find_free p.blocks)) [
  | inl e ↦ rw (e, alloc) w
  | inr (i, e) ↦
      rw (e, alloc)
        (record {
          consistent = All-modify IsConsistent take_block (λ b h. refl) p.blocks i w.consistent;
        })
]

copy_at-IsWellFormed :
    (d s : Option ℕ) (p : BlockPool) → IsWellFormed p → IsWellFormed (copy_at d s p)
unfolding copy_at
copy_at-IsWellFormed none s p w = w
copy_at-IsWellFormed (some d) none p w = w
copy_at-IsWellFormed (some d) (some s) p w = elim (Option-cases (get_elem? p.blocks s)) [
  | inl e ↦ rw (e, copy_at) w
  | inr (b, e) ↦
      rw (e, copy_at)
        (record {
          consistent = All-modify IsConsistent (copy_block b) (λ x h. h) p.blocks d w.consistent;
        })
]

pub call-IsWellFormed :
    (c : PoolCall) (p : BlockPool) → IsLegal c p → IsWellFormed p → IsWellFormed (call c p)
unfolding call
call-IsWellFormed call_alloc p l w = alloc-IsWellFormed p w
call-IsWellFormed call_reset p l w = record {
  consistent = All-map IsConsistent reset_block (λ b h. refl) p.blocks w.consistent;
}
call-IsWellFormed (call_free id) p l w =
    change_block-IsWellFormed free_block id p (λ i b _ _. free_block-IsConsistent b) w
call-IsWellFormed (call_ref id) p l w =
    change_block-IsWellFormed ref_block id p (λ i b e g _. ref_block-IsConsistent b (l i b e g)) w
call-IsWellFormed (call_deref id) p l w =
    change_block-IsWellFormed deref_block id p (λ i b _ _. deref_block-IsConsistent b) w
call-IsWellFormed (call_copy d s) p l w =
    copy_at-IsWellFormed (below d (length p.blocks)) (below s (length p.blocks)) p w

-- Over any history of calls that shares only blocks in use, a block stays on the free list exactly
-- as long as its reference count is zero.
pub calls-IsWellFormed :
    (cs : List PoolCall) (p : BlockPool)
    → AreLegal cs p
    → IsWellFormed p
    → IsWellFormed (calls cs p)
unfolding calls
calls-IsWellFormed [] p l w = w
calls-IsWellFormed (c ∷ cs) p l w =
    calls-IsWellFormed cs (call c p) l.1 (call-IsWellFormed c p l.0 w)

new_blocks-IsConsistent : (d : KvDtype) (bytes i n : ℕ) → All IsConsistent (new_blocks d bytes i n)
unfolding new_blocks
new_blocks-IsConsistent d bytes i zero = tt
new_blocks-IsConsistent d bytes i (suc n) = (refl, new_blocks-IsConsistent d bytes (i + 1) n)

pub new_pool-IsWellFormed :
    (n layers dim : ℕ) (d : KvDtype) → IsWellFormed (new_pool n layers dim d)
unfolding new_pool
new_pool-IsWellFormed n layers dim d = record { consistent = new_blocks-IsConsistent d _ 0 n }

-- `alloc` on a pool with no free block: -1 and nothing changed.
abbrev pub Refuses : BlockPool → Type 0
Refuses p = ((alloc p).0 ≡ negsuc 0) × ((alloc p).1 ≡ p) × (free_count p ≡ 0)

-- `alloc` otherwise: the first free block, with one reference; the other blocks keep theirs.
pub record Grants (p : BlockPool) (i : ℕ) : Type 0 where
  pub first : IsFirstFree p.blocks i
  pub id : (alloc p).0 ≡ pos i
  pub counts : (j : ℕ) → refs (alloc p).1.blocks j ≡ refs p.blocks j + (if i == j then 1 else 0)
  pub unheld : refs p.blocks i ≡ 0
  pub one_fewer : free_count (alloc p).1 + 1 ≡ free_count p
  pub same_size : length (alloc p).1.blocks ≡ length p.blocks

pub alloc_cases : (p : BlockPool) → IsWellFormed p → Refuses p ⊎ ((i : ℕ) × Grants p i)
unfolding alloc free_count
alloc_cases p w = elim (Option-cases (find_free p.blocks)) [
  | inl e ↦ inl (rw (e, alloc), rw (e, alloc), find_free-none p.blocks e)
  | inr (i, e) ↦
      let f = find_free-some p.blocks i e in
      inr (
        i,
        record {
          first = f;
          id = rw (e, alloc);
          counts = λ j. rw (e, alloc) (refs-take p.blocks i j w.consistent f.at f.is_free);
          unheld = refs_free p.blocks i w.consistent f.at f.is_free;
          one_fewer = rw (e, alloc) (count_free-take_block p.blocks i f.at f.is_free);
          same_size = rw (e, alloc) (length-modify p.blocks i take_block);
        },
      )
]

refs-new_blocks : (d : KvDtype) (bytes i n j : ℕ) → refs (new_blocks d bytes i n) j ≡ 0
unfolding refs new_blocks
refs-new_blocks d bytes i zero j = refl
refs-new_blocks d bytes i (suc n) zero = refl
refs-new_blocks d bytes i (suc n) (suc j) = refs-new_blocks d bytes (i + 1) n j

pub refs-new_pool :
    (n layers dim : ℕ) (d : KvDtype) (j : ℕ) → refs (new_pool n layers dim d).blocks j ≡ 0
unfolding new_pool
refs-new_pool n layers dim d j = refs-new_blocks d _ 0 n j
