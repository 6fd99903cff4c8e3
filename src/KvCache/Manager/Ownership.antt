-- ===== src/KvCache/Manager/Ownership.antt =====
-- The manager's operations keep the books: every reference that a pool counts is in a list of ids.
use vllm_cpp.Prelude.{
  ℕ, zero, suc, ◌+◌, ◌-◌, ◌==◌, ◌≤◌, ◌≡◌, refl, true, List, [], ◌∷◌, ◌++◌, ◌∙◌, arith, length,
  Bool-cases, inl, inr, ℤ, pos, negsuc, length-append,
}
use vllm_cpp.KvCache.Pool.{BlockPool, alloc, free, free_count, copy_to, call_free, call_copy, call}
use vllm_cpp.KvCache.Pool.Refs.{refs}
use vllm_cpp.KvCache.Pool.Effects.{count_id, count_id-append, refs-free_id, refs-copy_to}
use vllm_cpp.KvCache.Pool.History.{
  IsWellFormed, alloc-IsWellFormed, call-IsWellFormed, alloc_cases, Grants,
}
use vllm_cpp.KvCache.Manager.{AllocResult, alloc_loop, alloc_blocks, free_blocks, copy_blocks}

-- A pool where no block is shared, as the scheduler uses it.
pub record IsExclusive (p : BlockPool) : Type 0 where
  pub well_formed : IsWellFormed p
  pub at_most_one : (j : ℕ) → refs p.blocks j ≤ 1

pub alloc-IsExclusive : (p : BlockPool) → IsExclusive p → IsExclusive (alloc p).1
alloc-IsExclusive p x = elim (alloc_cases p x.well_formed) [
  | inl r ↦ rw r.1 x
  | inr (i, g) ↦ record {
    well_formed = alloc-IsWellFormed p x.well_formed;
    at_most_one = λ j. elim (Bool-cases (i == j)) [
      | inl e ↦ ground (arith, g.counts j, g.unheld, x.at_most_one j)
      | inr e ↦ ground (arith, g.counts j, x.at_most_one j)
    ];
  }
]

free-IsExclusive : (id : ℤ) (p : BlockPool) → IsExclusive p → IsExclusive (free id p)
unfolding call
free-IsExclusive id p x = record {
  well_formed = call-IsWellFormed (call_free id) p tt x.well_formed;
  at_most_one = λ j. omega (arith, refs-free_id id p j, x.at_most_one j);
}

copy_to-IsExclusive : (d s : ℤ) (p : BlockPool) → IsExclusive p → IsExclusive (copy_to d s p)
unfolding call
copy_to-IsExclusive d s p x = record {
  well_formed = call-IsWellFormed (call_copy d s) p tt x.well_formed;
  at_most_one = λ j. omega (arith, refs-copy_to d s p j, x.at_most_one j);
}

-- What a run of `alloc_loop` gives, whether or not it gets all that it wants.
pub record Takes (n : ℕ) (out : List ℤ) (p : BlockPool) (r : AllocResult) : Type 0 where
  pub exclusive : IsExclusive r.pool
  pub books : (j : ℕ) → refs r.pool.blocks j + count_id j out ≡ refs p.blocks j + count_id j r.out
  pub enough : n ≤ free_count p → r.done ≡ true
  pub full : r.done ≡ true → length r.out ≡ length out + n
  pub left : r.done ≡ true → free_count r.pool + n ≡ free_count p

Takes-suc :
    (n i : ℕ) (out : List ℤ) (p : BlockPool) (r : AllocResult)
    → Grants p i
    → Takes n (out ++ pos i ∷ []) (alloc p).1 r
    → Takes (suc n) out p r
unfolding count_id
Takes-suc n i out p r g t = record {
  exclusive = t.exclusive;
  books = λ j. omega (arith, t.books j, g.counts j, count_id-append j out (pos i ∷ []));
  enough = λ h. t.enough (omega (arith, g.one_fewer));
  full = λ h. omega (arith, t.full h, length-append out (pos i ∷ []));
  left = λ h. omega (arith, t.left h, g.one_fewer);
}

pub alloc_loop-Takes :
    (n : ℕ) (out : List ℤ) (p : BlockPool) → IsExclusive p → Takes n out p (alloc_loop n out p)
unfolding alloc_loop
alloc_loop-Takes zero out p x = record {
  exclusive = x;
  books = λ j. refl;
  enough = λ _. refl;
  full = λ _. omega arith;
  left = λ _. omega arith;
}
alloc_loop-Takes (suc n) out p x = elim (alloc_cases p x.well_formed) [
  | inl r ↦
      rw (r.0, alloc_loop)
        (rw r.1 (record {
          exclusive = x;
          books = λ j. refl;
          enough = λ h. absurd (omega (arith, r.2));
          full = λ h. absurd (cc);
          left = λ h. absurd (cc);
        }))
  | inr (i, g) ↦
      rw (g.id, alloc_loop)
        (Takes-suc n i out p _ g
          (alloc_loop-Takes n (out ++ pos i ∷ []) (alloc p).1 (alloc-IsExclusive p x)))
]

-- `alloc_blocks` on a pool that shares no block. Whatever it takes is in the list that it hands
-- out, also when it fails; it succeeds if the free count covers the wish, and then the list has
-- the wanted length.
pub alloc_blocks-Takes : (n : ℕ) (p : BlockPool) → IsExclusive p → Takes n [] p (alloc_blocks n p)
unfolding alloc_blocks
alloc_blocks-Takes n p x = alloc_loop-Takes n [] p x

-- Giving a list of blocks back takes from each block one reference for each time that it is named.
pub refs-free_blocks :
    (ids : List ℤ) (p : BlockPool) (j : ℕ)
    → refs (free_blocks ids p).blocks j ≡ refs p.blocks j - count_id j ids
unfolding free_blocks count_id
refs-free_blocks [] p j = omega arith
refs-free_blocks (pos i ∷ ids) p j =
    omega (arith, refs-free_blocks ids (free (pos i) p) j, refs-free_id (pos i) p j)
refs-free_blocks (negsuc i ∷ ids) p j =
    omega (arith, refs-free_blocks ids (free (negsuc i) p) j, refs-free_id (negsuc i) p j)

pub free_blocks-IsExclusive :
    (ids : List ℤ) (p : BlockPool) → IsExclusive p → IsExclusive (free_blocks ids p)
unfolding free_blocks
free_blocks-IsExclusive [] p x = x
free_blocks-IsExclusive (id ∷ ids) p x =
    free_blocks-IsExclusive ids (free id p) (free-IsExclusive id p x)

pub refs-copy_blocks :
    (src dst : List ℤ) (p : BlockPool) (j : ℕ)
    → refs (copy_blocks src dst p).blocks j ≡ refs p.blocks j
unfolding copy_blocks
refs-copy_blocks [] dst p j = refl
refs-copy_blocks (s ∷ src) [] p j = refl
refs-copy_blocks (s ∷ src) (d ∷ dst) p j =
    refs-copy_blocks src dst (copy_to d s p) j ∙ refs-copy_to d s p j

pub copy_blocks-IsExclusive :
    (src dst : List ℤ) (p : BlockPool) → IsExclusive p → IsExclusive (copy_blocks src dst p)
unfolding copy_blocks
copy_blocks-IsExclusive [] dst p x = x
copy_blocks-IsExclusive (s ∷ src) [] p x = x
copy_blocks-IsExclusive (s ∷ src) (d ∷ dst) p x =
    copy_blocks-IsExclusive src dst (copy_to d s p) (copy_to-IsExclusive d s p x)
