-- ===== src/KvCache/Pool/Effects.antt =====
-- What freeing and copying do to the reference counts, in terms of the ids that a list names.
use vllm_cpp.Prelude.{
  ℕ, ◌+◌, ◌-◌, ◌==◌, ◌≡◌, refl, false, if◌then◌else◌, ltb, Option, none, some, List, [], ◌∷◌, ◌++◌,
  arith, length, Option-cases, Bool-cases, inl, inr, ℤ, pos, negsuc, below, get_elem?,
}
use vllm_cpp.KvCache.Pool.{BlockPool, free, copy_to, copy_at, change_block}
use vllm_cpp.KvCache.Pool.Refs.{refs, refs-free, refs-copy, refs_range}

-- How often a list of ids names block `i`.
unfoldable pub count_id : ℕ → List ℤ → ℕ
count_id i [] = 0
count_id i (pos j ∷ ids) = (if j == i then 1 else 0) + count_id i ids
count_id i (negsuc _ ∷ ids) = count_id i ids

pub count_id-append :
    (i : ℕ) (xs ys : List ℤ) → count_id i (xs ++ ys) ≡ count_id i xs + count_id i ys
unfolding count_id
count_id-append i [] ys = omega arith
count_id-append i (pos j ∷ xs) ys = omega (arith, count_id-append i xs ys)
count_id-append i (negsuc _ ∷ xs) ys = count_id-append i xs ys

refs_out : (id : ℕ) (p : BlockPool) → ltb id (length p.blocks) ≡ false → refs p.blocks id ≡ 0
refs_out id p e = ground (arith, refs_range p.blocks id)

-- Freeing an id takes one reference from its block, if it has one.
pub refs-free_id :
    (id : ℤ) (p : BlockPool) (j : ℕ)
    → refs (free id p).blocks j ≡ refs p.blocks j - count_id j (id ∷ [])
unfolding free count_id
refs-free_id (negsuc _) p j = omega arith
refs-free_id (pos i) p j = elim (Bool-cases (ltb i (length p.blocks))) [
  | inl e ↦ rw (e, change_block) (omega (arith, refs-free p.blocks i j))
  | inr e ↦ rw (e, change_block) (ground (arith, refs_out i p e))
]

refs-copy_at :
    (d s : Option ℕ) (p : BlockPool) (j : ℕ) → refs (copy_at d s p).blocks j ≡ refs p.blocks j
unfolding copy_at
refs-copy_at none s p j = refl
refs-copy_at (some d) none p j = refl
refs-copy_at (some d) (some s) p j = elim (Option-cases (get_elem? p.blocks s)) [
  | inl e ↦ rw (e, copy_at) refl
  | inr (b, e) ↦ rw (e, copy_at) (refs-copy p.blocks d j b)
]

pub refs-copy_to :
    (d s : ℤ) (p : BlockPool) (j : ℕ) → refs (copy_to d s p).blocks j ≡ refs p.blocks j
unfolding copy_to
refs-copy_to d s p j = refs-copy_at (below d (length p.blocks)) (below s (length p.blocks)) p j
