-- ===== src/KvCache/Pool/Refs.antt =====
-- Reference counts of a pool's blocks, and what the pool's operations do to them.
use vllm_cpp.Prelude.{
  ℕ, zero, suc, ◌+◌, ◌-◌, ◌<◌, ◌==◌, ◌≡◌, refl, true, if◌then◌else◌, some, List, [], ◌∷◌, arith,
  modify, get_elem?, length, All,
}
use vllm_cpp.KvCache.Pool.{KvsBlock, take_block, free_block, copy_block}

-- The reference count at a position; 0 out of range.
unfoldable pub refs : List KvsBlock → ℕ → ℕ
refs [] i = 0
refs (b ∷ bs) zero = b.ref_count
refs (b ∷ bs) (suc i) = refs bs i

-- A block is on the free list exactly when nobody refers to it.
abbrev pub IsConsistent : KvsBlock → Type 0
IsConsistent b = b.free ≡ (b.ref_count == 0)

pub refs-take :
    (bs : List KvsBlock) (i j : ℕ) {b : KvsBlock}
    → All IsConsistent bs
    → get_elem? bs i ≡ some b
    → b.free ≡ true
    → refs (modify bs i take_block) j ≡ refs bs j + (if i == j then 1 else 0)
unfolding refs
refs-take [] i j c h e = absurd (cc)
refs-take (x ∷ bs) zero zero c h e = ground arith
refs-take (x ∷ bs) zero (suc j) c h e = ground arith
refs-take (x ∷ bs) (suc i) zero c h e = ground arith
refs-take (x ∷ bs) (suc i) (suc j) c h e = ground (arith, refs-take bs i j c.1 h e)

-- One reference less at `i`, never below zero.
pub refs-free :
    (bs : List KvsBlock) (i j : ℕ)
    → refs (modify bs i free_block) j ≡ refs bs j - (if i == j then 1 else 0)
unfolding refs
refs-free [] i j = omega arith
refs-free (x ∷ bs) zero zero = ground arith
refs-free (x ∷ bs) zero (suc j) = ground arith
refs-free (x ∷ bs) (suc i) zero = ground arith
refs-free (x ∷ bs) (suc i) (suc j) = ground (arith, refs-free bs i j)

pub refs_range : (bs : List KvsBlock) (i : ℕ) → 0 < refs bs i → i < length bs
unfolding refs
refs_range [] i h = elim h [ ]
refs_range (b ∷ bs) zero h = omega arith
refs_range (b ∷ bs) (suc i) h = omega (arith, refs_range bs i h)

-- A free block has no reference.
pub refs_free :
    (bs : List KvsBlock) (i : ℕ) {b : KvsBlock}
    → All IsConsistent bs
    → get_elem? bs i ≡ some b
    → b.free ≡ true
    → refs bs i ≡ 0
unfolding refs
refs_free [] i c h e = absurd (cc)
refs_free (x ∷ bs) zero c h e = ground arith
refs_free (x ∷ bs) (suc i) c h e = refs_free bs i c.1 h e

pub refs-copy :
    (bs : List KvsBlock) (i j : ℕ) (b : KvsBlock) → refs (modify bs i (copy_block b)) j ≡ refs bs j
unfolding refs
refs-copy [] i j b = refl
refs-copy (x ∷ bs) zero zero b = refl
refs-copy (x ∷ bs) zero (suc j) b = refl
refs-copy (x ∷ bs) (suc i) zero b = refl
refs-copy (x ∷ bs) (suc i) (suc j) b = refs-copy bs i j b
